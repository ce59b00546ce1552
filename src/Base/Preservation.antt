-- ===== src/Base/Preservation.antt =====
-- What every run of a statement keeps, whether it ends normally or by an exception.
use mathlib.Core.Bool.{Bool, true, false}
use mathlib.Core.List.{List, [], ◌∷◌}
use taskweave.Exceptions.{Exception}
use taskweave.Base.Tests.{if◌then◌else◌}
use taskweave.Base.Actions.{
  Outcome, done, raised, Stmt, resume, recover, ◌>>=◌, ◌>>◌, catch, for_each,
}

abbrev pub Keeps : {W A : Type 0} → (W → Type 0) → Stmt W A → Type 0
Keeps {W} P m = (w : W) → P w → P (m w).1

resume-keeps :
    {W A B : Type 0} (P : W → Type 0) (r : Outcome A) (w : W) (rest : A → Stmt W B)
    → P w
    → ((a : A) → Keeps P (rest a))
    → P (resume r w rest).1
resume-keeps P (done a) w rest p h = h a w p
resume-keeps P (raised e) w rest p h = p

pub >>=-Keeps :
    {W A B : Type 0} (P : W → Type 0) (m : Stmt W A) (rest : A → Stmt W B)
    → Keeps P m
    → ((a : A) → Keeps P (rest a))
    → Keeps P (m >>= rest)
>>=-Keeps P m rest hm h w p = resume-keeps P (m w).0 (m w).1 rest (hm w p) h

pub >>-Keeps :
    {W A B : Type 0} (P : W → Type 0) (m : Stmt W A) (rest : Stmt W B)
    → Keeps P m
    → Keeps P rest
    → Keeps P (m >> rest)
>>-Keeps P m rest hm h = >>=-Keeps P m (λ _. rest) hm (λ _. h)

recover-keeps :
    {W A : Type 0} (P : W → Type 0) (r : Outcome A) (w : W) (handler : Exception → Stmt W A)
    → P w
    → ((e : Exception) → Keeps P (handler e))
    → P (recover r w handler).1
recover-keeps P (done a) w handler p h = p
recover-keeps P (raised e) w handler p h = h e w p

pub catch-Keeps :
    {W A : Type 0} (P : W → Type 0) (m : Stmt W A) (handler : Exception → Stmt W A)
    → Keeps P m
    → ((e : Exception) → Keeps P (handler e))
    → Keeps P (catch m handler)
catch-Keeps P m handler hm h w p = recover-keeps P (m w).0 (m w).1 handler (hm w p) h

pub for_each-Keeps :
    {W A : Type 0} (P : W → Type 0) (xs : List A) (body : A → Stmt W Unit)
    → ((x : A) → Keeps P (body x))
    → Keeps P (for_each xs body)
for_each-Keeps P [] body h = λ w p. p
for_each-Keeps P (x ∷ xs) body h =
    >>-Keeps P (body x) (for_each xs body) (h x) (for_each-Keeps P xs body h)

pub if-Keeps :
    {W A : Type 0} (P : W → Type 0) (b : Bool) (m m' : Stmt W A)
    → Keeps P m
    → Keeps P m'
    → Keeps P (if b then m else m')
if-Keeps P true m m' h h' = h
if-Keeps P false m m' h h' = h'
