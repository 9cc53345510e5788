-- ===== src/FileSystem/Ending.antt =====
-- Calls after the end of a facade.
use opfs.Prelude.{
  ℕ, ◌≡◌, refl, ap, ◌∙◌, Option, none, some, Bool, true, false, List, [], ◌∷◌, if◌then◌else◌,
}
use opfs.Failure.{Result, ok}
use opfs.Exec.{Exec}
use opfs.Adapter.{Adapter}
use opfs.FileSystem.{Facade, Config, StreamLibrary, on_store}
use opfs.FileSystem.Iteration.{close}
use opfs.FileSystem.Calls.{Request, Openers, run_requests, perform_closed}

module _ {S : Type 0} where
  ended :
      (t : Bool) (f : Facade S) (p : Result (Unit {0}) × Facade S)
      → f.closed ≡ t
      → p.1.closed ≡ true
      → (if t then (ok tt, f) else p).1.closed ≡ true
  ended true f p e h = e
  ended false f p e h = h

  close-closed :
      (dispose : Option (Exec S (Unit {0}))) (f : Facade S) → (close dispose f).1.closed ≡ true
  unfolding close on_store
  close-closed none f = ended f.closed f (ok tt, record f { closed = true }) refl refl
  close-closed (some end) f = ended f.closed f (on_store end (record f { closed = true })) refl refl

module _ {S F : Type 0} (adapter : Adapter S) (config : Config) (library : StreamLibrary)
    (openers : Openers S F) (fuel : ℕ) where
  run_requests_closed :
      (rs : List Request) (f : Facade S)
      → f.closed ≡ true
      → run_requests adapter config library openers fuel rs f ≡ f
  unfolding run_requests
  run_requests_closed [] f h = refl
  run_requests_closed (r ∷ rs) f h =
      ap (λ p. run_requests adapter config library openers fuel rs p.1)
        (perform_closed adapter config library openers fuel r f h)
      ∙ run_requests_closed rs f h

  -- Nothing happens after `close`, whether the facade owned its adapter or not and whether the disposal
  -- of the adapter returned or threw: any calls afterwards leave the storage, the locks and the
  -- metrics as `close` left them.
  pub run_requests-close :
      (dispose : Option (Exec S (Unit {0}))) (rs : List Request) (f : Facade S)
      → run_requests adapter config library openers fuel rs (close dispose f).1
        ≡ (close dispose f).1
  run_requests-close dispose rs f =
      run_requests_closed rs (close dispose f).1 (close-closed dispose f)
