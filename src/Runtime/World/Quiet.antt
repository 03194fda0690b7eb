-- ===== src/Runtime/World/Quiet.antt =====
-- Actions that do nothing but add lines to the report.
use agent_farm_runtime.Prelude.{
  ◌≡◌, refl, Bool, true, false, List, [], ◌∷◌, ◌++◌, All, if◌then◌else◌,
}
use agent_farm_runtime.Runtime.Result.{Error, Result, ok, err}
use agent_farm_runtime.Runtime.World.{
  ReportLine, reported, Effect, World, step, write, after, Act, pure, raise, gets, ask, try_catch,
  effect, guard, ◌>>=◌, go_on,
}

-- A line of the report
abbrev pub IsReport : Effect → Type 0
IsReport e = (line : ReportLine) × (e ≡ reported line)

reports-append : (es fs : List Effect) → All IsReport es → All IsReport fs → All IsReport (es ++ fs)
reports-append [] fs h k = k
reports-append (e ∷ es) fs (r, h) k = (r, reports-append es fs h k)

-- Lines of the report leave the files.
pub reports-disk : (w : World) (es : List Effect) → All IsReport es → (after w es).disk ≡ w.disk
unfolding after step write
reports-disk w [] h = refl
reports-disk w (e ∷ es) ((line, q), h) = rw q (reports-disk (step w (reported line)) es h)

pub record Quiet {ℓ} {A : Type ℓ} (m : Act A) (w : World) : Type 0 where
  pub lines : All IsReport (m w).1

module _ {ℓ} {A : Type ℓ} (w : World) where
  pub Quiet-pure : (a : A) → Quiet (pure a) w
  unfolding pure
  Quiet-pure a = record { lines = tt }

  pub Quiet-raise : (e : Error) → Quiet (raise {A = A} e) w
  unfolding raise
  Quiet-raise e = record { lines = tt }

  pub Quiet-gets : (g : World → A) → Quiet (gets g) w
  unfolding gets
  Quiet-gets g = record { lines = tt }

  pub Quiet-ask : (g : World → Result A) → Quiet (ask g) w
  unfolding ask
  Quiet-ask g = record { lines = tt }

  pub Quiet-if :
      (b : Bool) {x y : Act A}
      → (b ≡ true → Quiet x w)
      → (b ≡ false → Quiet y w)
      → Quiet (if b then x else y) w
  Quiet-if true h k = h refl
  Quiet-if false h k = k refl

  caught-Quiet :
      (handler : Error → Act A) (r : Result A) (es : List Effect)
      → All IsReport es
      → ((e : Error) (v : World) → Quiet (handler e) v)
      → All IsReport (try_catch (λ _. (r, es)) handler w).1
  unfolding try_catch
  caught-Quiet handler (ok a) es h k = h
  caught-Quiet handler (err e) es h k = reports-append es _ h (k e (after w es)).lines

  pub Quiet-catch :
      (m : Act A) (handler : Error → Act A)
      → Quiet m w
      → ((e : Error) (v : World) → Quiet (handler e) v)
      → Quiet (try_catch m handler) w
  unfolding try_catch
  Quiet-catch m handler h k = record { lines = caught-Quiet handler (m w).0 (m w).1 h.lines k }

pub Quiet-guard : (w : World) (b : Bool) (e : Error) → Quiet (guard b e) w
Quiet-guard w true e = Quiet-raise w e
Quiet-guard w false e = Quiet-pure w tt

pub Quiet-report : (w : World) (line : ReportLine) → Quiet (effect (reported line)) w
unfolding effect
Quiet-report w line = record { lines = ((line, refl), tt) }

module _ {ℓ κ} {A : Type ℓ} {B : Type κ} (w : World) (m : Act A) (f : A → Act B) where
  go_on-Quiet :
      (r : Result A) (es : List Effect)
      → m w ≡ (r, es)
      → All IsReport es
      → ((a : A) (fs : List Effect) → m w ≡ (ok a, fs) → Quiet (f a) (after w fs))
      → All IsReport (go_on w f r es).1
  unfolding go_on
  go_on-Quiet (ok a) es q h k = reports-append es _ h (k a es q).lines
  go_on-Quiet (err e) es q h k = h

  pub Quiet-bind :
      Quiet m w
      → ((a : A) (fs : List Effect) → m w ≡ (ok a, fs) → Quiet (f a) (after w fs))
      → Quiet (m >>= f) w
  unfolding ◌>>=◌
  Quiet-bind h k = record { lines = go_on-Quiet (m w).0 (m w).1 refl h.lines k }

  pub Quiet-then : Quiet m w → ((a : A) (v : World) → Quiet (f a) v) → Quiet (m >>= f) w
  Quiet-then h k = Quiet-bind h (λ a fs q. k a (after w fs))

pub ruleset quiet_rules = (
  Quiet-then, Quiet-pure, Quiet-raise, Quiet-gets, Quiet-ask, Quiet-guard, Quiet-report, Quiet-if,
)
