-- ===== src/Snapshots/Session.antt =====
-- When a session can be asked for a snapshot.
use taskweave.Base.{
  ℕ, ℤ, pos, minus, ◌+◌, ◌==◌, String, Bool, true, false, if◌then◌else◌, List, [], ◌∷◌, done,
  raised, Stmt, ◌>>=◌, Dict, store, string_key, >>=-done, >>=-raised, ◌≡◌, refl, ap, ◌∙◌, inl, inr,
  Bool-cases, arith,
}
use taskweave.Exceptions.{attribute_error}
use taskweave.Lifecycle.{pipeline_state_enum}
use taskweave.Plans.{PipelineTask, RuntimePipeline, SessionControl, Environment, nat_key}
use taskweave.Snapshots.{
  PipelineSnapshot, SessionSnapshot, session_state_text, elapsed_since, task_snapshot,
  task_snapshots, pipeline_snapshot, pipeline_snapshots, snapshot,
}

abbrev pub is_empty {ℓ} : {A : Type ℓ} → List A → Bool
is_empty [] = true
is_empty (x ∷ xs) = false

-- Some pipeline has a task.
abbrev pub has_task : Dict ℕ RuntimePipeline → Bool
has_task [] = false
has_task ((k, p) ∷ ps) = if is_empty p.tasks then has_task ps else true

module _ (o : Environment) where
  -- The time since a start, after so many readings of the clock, and the readings then.
  abbrev pub since : ℕ → ℕ → ℤ × ℕ
  since readings started_at =
      if started_at == 0
      then (pos 0, readings)
      else (minus (o.clock readings) started_at, readings + 1)

  abbrev pub empty_pipeline : ℤ → RuntimePipeline → PipelineSnapshot
  empty_pipeline elapsed p = record {
    id = p.id.value;
    session_id = p.session_id.value;
    tasks = [];
    state = pipeline_state_enum.value p.cycle.state;
    started_at = p.cycle.started_at;
    elapsed = elapsed;
    early_exit = p.early_exit;
  }

  -- The snapshots of pipelines without tasks, and the readings then.
  abbrev pub empty_pipelines :
      Dict String PipelineSnapshot → ℕ → Dict ℕ RuntimePipeline → Dict String PipelineSnapshot × ℕ
  empty_pipelines acc readings [] = (acc, readings)
  empty_pipelines acc readings ((k, p) ∷ ps) =
      let (elapsed, later) = since readings p.cycle.started_at in
      empty_pipelines (store acc p.id.value (empty_pipeline elapsed p)) later ps

  elapsed_since-run :
      (started_at : ℕ) (s : SessionControl)
      → elapsed_since o started_at s ≡ (
        done ((since s.readings started_at).0),
        record s { readings = (since s.readings started_at).1 },
      )
  unfolding elapsed_since
  elapsed_since-run started_at s = ground arith

  task_snapshot-fails :
      (t : PipelineTask) (s : SessionControl) → (task_snapshot o t s).0 ≡ raised attribute_error
  unfolding task_snapshot elapsed_since
  task_snapshot-fails t s = ground arith

  pipeline_snapshot-fails :
      (p : RuntimePipeline) (s : SessionControl)
      → is_empty p.tasks ≡ false
      → (pipeline_snapshot o p s).0 ≡ raised attribute_error
  unfolding pipeline_snapshot task_snapshots task_snapshot elapsed_since
  pipeline_snapshot-fails p s h = by_tasks p.tasks h
    where
      by_tasks :
          (ts : List PipelineTask)
          → is_empty ts ≡ false
          → (pipeline_snapshot o (record p { tasks = ts }) s).0 ≡ raised attribute_error
      by_tasks [] h = absurd (ground (arith, h))
      by_tasks (t ∷ ts) h = ground arith

  pipeline_snapshot-empty :
      (p : RuntimePipeline) (s : SessionControl)
      → is_empty p.tasks ≡ true
      → pipeline_snapshot o p s ≡ (
        done (empty_pipeline (since s.readings p.cycle.started_at).0 p),
        record s { readings = (since s.readings p.cycle.started_at).1 },
      )
  unfolding pipeline_snapshot task_snapshots elapsed_since
  pipeline_snapshot-empty p s h = by_tasks p.tasks h
    where
      by_tasks :
          (ts : List PipelineTask)
          → is_empty ts ≡ true
          → pipeline_snapshot o (record p { tasks = ts }) s ≡ (
            done (empty_pipeline (since s.readings p.cycle.started_at).0 p),
            record s { readings = (since s.readings p.cycle.started_at).1 },
          )
      by_tasks [] h = ground arith
      by_tasks (t ∷ ts) h = absurd (ground (arith, h))

  pipeline_snapshots-fails :
      (acc : Dict String PipelineSnapshot) (ps : Dict ℕ RuntimePipeline) (s : SessionControl)
      → has_task ps ≡ true
      → (pipeline_snapshots o acc ps s).0 ≡ raised attribute_error
  unfolding pipeline_snapshots
  pipeline_snapshots-fails acc [] s h = absurd (ground (arith, h))
  pipeline_snapshots-fails acc ((k, p) ∷ ps) s h = elim (Bool-cases (is_empty p.tasks)) [
    | inl none' ↦
        let snap = empty_pipeline (since s.readings p.cycle.started_at).0 p in
        let e =
          >>=-done (pipeline_snapshot o p)
            (λ snap. pipeline_snapshots o (store acc p.id.value snap) ps)
            (pipeline_snapshot-empty p s none') in
        ap (λ out. out.0) e
        ∙ pipeline_snapshots-fails (store acc p.id.value snap) ps
            (record s { readings = (since s.readings p.cycle.started_at).1 })
            (ground (arith, h, none'))
    | inr some' ↦
        let e = pipeline_snapshot-fails p s some' in
        ap (λ out. out.0)
          (>>=-raised (pipeline_snapshot o p)
            (λ snap. pipeline_snapshots o (store acc p.id.value snap) ps) {w = s}
            {w' = (pipeline_snapshot o p s).1} (λ i. (e i, (pipeline_snapshot o p s).1)))
  ]

  pipeline_snapshots-empty :
      (acc : Dict String PipelineSnapshot) (ps : Dict ℕ RuntimePipeline) (s : SessionControl)
      → has_task ps ≡ false
      → pipeline_snapshots o acc ps s ≡ (
        done ((empty_pipelines acc s.readings ps).0),
        record s { readings = (empty_pipelines acc s.readings ps).1 },
      )
  unfolding pipeline_snapshots
  pipeline_snapshots-empty acc [] s h = refl
  pipeline_snapshots-empty acc ((k, p) ∷ ps) s h =
      let (none', rest) = none_here p.tasks h in
      let snap = empty_pipeline (since s.readings p.cycle.started_at).0 p in
      >>=-done (pipeline_snapshot o p) (λ snap. pipeline_snapshots o (store acc p.id.value snap) ps)
        (pipeline_snapshot-empty p s none')
      ∙ pipeline_snapshots-empty (store acc p.id.value snap) ps
          (record s { readings = (since s.readings p.cycle.started_at).1 }) rest
    where
      none_here :
          (ts : List PipelineTask)
          → (if is_empty ts then has_task ps else true) ≡ false
          → (is_empty ts ≡ true) × (has_task ps ≡ false)
      none_here [] h = (refl, h)
      none_here (t ∷ ts) h = absurd (ground (arith, h))

  -- What a session without tasks tells about itself.
  abbrev pub empty_session : SessionControl → SessionSnapshot
  empty_session s =
      let (elapsed, later) = since s.readings s.cycle.started_at in
      record {
        id = s.id.value;
        state = session_state_text s.cycle.state;
        started_at = s.cycle.started_at;
        elapsed = elapsed;
        pipelines = (empty_pipelines [] later s.pipelines).0;
      }

  -- A session in which some pipeline has a task gives no snapshot: it raises AttributeError, since a
  -- task's snapshot reads `last_error`, which is never set. Without tasks it returns, with its own
  -- state and times and those of each pipeline under the text of its id.
  pub snapshot-eq :
      (s : SessionControl)
      → (snapshot o s).0
        ≡ (if has_task s.pipelines then raised attribute_error else done (empty_session s))
  unfolding snapshot
  snapshot-eq s =
      let (elapsed, later) = since s.readings s.cycle.started_at in
      let s1 = record s { readings = later } in
      let e =
        >>=-done (λ s. elapsed_since o s.cycle.started_at s) rest
          (elapsed_since-run s.cycle.started_at s) in
      elim (Bool-cases (has_task s.pipelines)) [
        | inl tasks ↦
            let f = pipeline_snapshots-fails [] s.pipelines s1 tasks in
            let out = (snapshots s1).1 in
            rw tasks (
              ap (λ out. out.0)
                (e ∙ >>=-raised snapshots (told elapsed) {w = s1} {w' = out} (λ i. (f i, out))))
        | inr empty ↦
            let f = pipeline_snapshots-empty [] s.pipelines s1 empty in
            rw empty (ap (λ out. out.0) (e ∙ >>=-done snapshots (told elapsed) {w = s1} f))
      ]
    where
      snapshots : Stmt SessionControl (Dict String PipelineSnapshot)
      snapshots s = pipeline_snapshots o [] s.pipelines s

      told : ℤ → Dict String PipelineSnapshot → Stmt SessionControl SessionSnapshot
      told elapsed pipelines s = (
        done (record {
          id = s.id.value;
          state = session_state_text s.cycle.state;
          started_at = s.cycle.started_at;
          elapsed = elapsed;
          pipelines = pipelines;
        }),
        s,
      )

      rest : ℤ → Stmt SessionControl SessionSnapshot
      rest elapsed = snapshots >>= told elapsed
