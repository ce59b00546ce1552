-- ===== src/Base/Actions.antt =====
-- Python statements over a state `W`. A statement ends normally or by an exception, and what it has
-- changed until then stays changed.
use mathlib.Core.Path.{◌≡◌, refl, sym, ◌∙◌}
use mathlib.Core.List.{List, [], ◌∷◌, ◌++◌}
use taskweave.Exceptions.{Exception}

pub data Outcome (A : Type 0) : Type 0 where
  done : A → Outcome A
  raised : Exception → Outcome A

abbrev pub Stmt : Type 0 → Type 0 → Type 0
Stmt W A = W → Outcome A × W

abbrev pub give : {W A : Type 0} → A → Stmt W A
give a w = (done a, w)

abbrev pub fail : {W A : Type 0} → Exception → Stmt W A
fail e w = (raised e, w)

abbrev pub skip : {W : Type 0} → Stmt W Unit
skip w = (done tt, w)

abbrev pub update : {W : Type 0} → (W → W) → Stmt W Unit
update f w = (done tt, f w)

-- What follows a statement that has ended.
abbrev pub resume : {W A B : Type 0} → Outcome A → W → (A → Stmt W B) → Outcome B × W
resume (done a) w rest = rest a w
resume (raised e) w rest = (raised e, w)

infixl 5 ◌>>=◌ ◌>>◌
abbrev pub ◌>>=◌ : {W A B : Type 0} → Stmt W A → (A → Stmt W B) → Stmt W B
◌>>=◌ first rest w = let (r, w') = first w in resume r w' rest

abbrev pub ◌>>◌ : {W A B : Type 0} → Stmt W A → Stmt W B → Stmt W B
first >> rest = first >>= λ _. rest

-- `try: body` / `except Exception as e: handler(e)`
abbrev pub recover : {W A : Type 0} → Outcome A → W → (Exception → Stmt W A) → Outcome A × W
recover (done a) w handler = (done a, w)
recover (raised e) w handler = handler e w

abbrev pub catch : {W A : Type 0} → Stmt W A → (Exception → Stmt W A) → Stmt W A
catch body handler w = let (r, w') = body w in recover r w' handler

-- `for x in xs: body(x)`
abbrev pub for_each : {W A : Type 0} → List A → (A → Stmt W Unit) → Stmt W Unit
for_each [] body = skip
for_each (x ∷ xs) body = body x >> for_each xs body

-- A statement that is known to end normally is over: go on with the next one.
pub >>-done :
    {W A B : Type 0} (first : Stmt W A) (rest : Stmt W B) {w w' : W} {a : A}
    → first w ≡ (done a, w')
    → (first >> rest) w ≡ rest w'
>>-done first rest e = λ i. resume (e i).0 (e i).1 (λ _. rest)

pub >>=-done :
    {W A B : Type 0} (first : Stmt W A) (rest : A → Stmt W B) {w w' : W} {a : A}
    → first w ≡ (done a, w')
    → (first >>= rest) w ≡ rest a w'
>>=-done first rest e = λ i. resume (e i).0 (e i).1 rest

pub catch-done :
    {W A : Type 0} (body : Stmt W A) (handler : Exception → Stmt W A) {w w' : W} {a : A}
    → body w ≡ (done a, w')
    → catch body handler w ≡ (done a, w')
catch-done body handler e = λ i. recover (e i).0 (e i).1 handler

-- A statement that is known to raise is the last one.
pub >>=-raised :
    {W A B : Type 0} (first : Stmt W A) (rest : A → Stmt W B) {w w' : W} {e : Exception}
    → first w ≡ (raised e, w')
    → (first >>= rest) w ≡ (raised e, w')
>>=-raised first rest p = λ i. resume (p i).0 (p i).1 rest

resume_assoc :
    {W A B C : Type 0} (r : Outcome A) (w : W) (f : A → Stmt W B) (g : B → Stmt W C)
    → resume (resume r w f).0 (resume r w f).1 g ≡ resume r w (λ a. f a >>= g)
resume_assoc (done a) w f g = refl
resume_assoc (raised e) w f g = refl

-- A loop over two lists is two loops.
pub for_each-append :
    {W A : Type 0} (xs ys : List A) (body : A → Stmt W Unit) (w : W)
    → for_each (xs ++ ys) body w ≡ (for_each xs body >> for_each ys body) w
for_each-append [] ys body w = refl
for_each-append (x ∷ xs) ys body w =
    (λ i. resume (body x w).0 (body x w).1 (λ _ w'. for_each-append xs ys body w' i))
    ∙ sym (resume_assoc (body x w).0 (body x w).1 (λ _. for_each xs body) (λ _. for_each ys body))
