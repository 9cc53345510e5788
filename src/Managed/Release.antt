-- ===== src/Managed/Release.antt =====
-- A managed file gives its lock back once.
use opfs.Prelude.{
  ℕ, ◌+◌, ◌≡◌, refl, ap, ◌∙◌, sym, Option, Bool, true, false, List, [], ◌∷◌, Text, String,
  if◌then◌else◌, arith,
}
use opfs.Failure.{Result, ok, throw, AbortSignal}
use opfs.Bytes.{Bytes}
use opfs.Exec.{Exec, lift, continue, ◌>>=◌}
use opfs.Managed.{WritableBackend, ManagedFile, on_backend, with_errors, require_live, settle}
use opfs.Managed.Writable.{work, write, truncate, flush, close, abort}

-- A call on a writable file, with the signal as it stands before and after the work.
pub data FileCall : Type 0 where
  writes : Bytes → ℕ → Option AbortSignal → Option AbortSignal → FileCall
  truncates_to : ℕ → Option AbortSignal → Option AbortSignal → FileCall
  flushes : Option AbortSignal → Option AbortSignal → FileCall
  closes aborts : FileCall

-- The lock was given back once if the file is settled, and not at all before.
abbrev pub IsOwned : {T : Type 0} → ManagedFile T → Type 0
IsOwned f = f.releases ≡ (if f.live then 0 else 1)

module _ {T : Type 0} (backend : WritableBackend T) (path : Text) where
  unfoldable pub call : FileCall → Exec (ManagedFile T) (Unit {0})
  call (writes bytes at before after) = write backend path bytes at before after
  call (truncates_to size before after) = truncate backend path size before after
  call (flushes before after) = flush backend path before after
  call closes = close backend path
  call aborts = abort backend path

  unfoldable pub run_calls : List FileCall → ManagedFile T → ManagedFile T
  run_calls [] f = f
  run_calls (c ∷ cs) f = run_calls cs (call c f).1

-- What the work on a live file leaves alone.
pub record Continues {T A : Type 0} (m : Exec (ManagedFile T) A) : Type 0 where
  pub live_eq : (f : ManagedFile T) → (m f).1.live ≡ f.live
  pub releases_eq : (f : ManagedFile T) → (m f).1.releases ≡ f.releases

module _ {T : Type 0} where
  Continues-lift : {A : Type 0} (r : Result A) → Continues {T = T} (lift r)
  Continues-lift r = record { live_eq = λ f. refl; releases_eq = λ f. refl }

  Continues-on_backend : {A : Type 0} (m : Exec T A) → Continues (on_backend m)
  unfolding on_backend
  Continues-on_backend m = record { live_eq = λ f. refl; releases_eq = λ f. refl }

  either_state :
      (p q : Result (Unit {0}) × ManagedFile T) (f : ManagedFile T) (t : Bool)
      → p.1 ≡ f
      → q.1 ≡ f
      → (if t then p else q).1 ≡ f
  either_state p q f true h k = h
  either_state p q f false h k = k

  Continues-require_live :
      (operation : String) (path : Text) → Continues {T = T} (require_live operation path)
  unfolding require_live
  Continues-require_live operation path = record {
    live_eq = λ f. ap (λ (g : ManagedFile T). g.live) (either_state _ _ f f.live refl refl);
    releases_eq = λ f. ap (λ (g : ManagedFile T). g.releases) (either_state _ _ f f.live refl refl);
  }

  continue-eq :
      {A B C : Type 0} (view : ManagedFile T → C) (p : Result A × ManagedFile T)
      (k : A → Exec (ManagedFile T) B)
      → ((a : A) (g : ManagedFile T) → view (k a g).1 ≡ view g)
      → view (continue p k).1 ≡ view p.1
  continue-eq view (ok a, g) k h = h a g
  continue-eq view (throw e, g) k h = refl

  Continues-bind :
      {A B : Type 0} (m : Exec (ManagedFile T) A) (k : A → Exec (ManagedFile T) B)
      → Continues m
      → ((a : A) → Continues (k a))
      → Continues (m >>= k)
  Continues-bind m k h n = record {
    live_eq = λ f.
        continue-eq (λ (g : ManagedFile T). g.live) (m f) k (λ a g. (n a).live_eq g) ∙ h.live_eq f;
    releases_eq = λ f.
        continue-eq (λ (g : ManagedFile T). g.releases) (m f) k (λ a g. (n a).releases_eq g)
        ∙ h.releases_eq f;
  }

  Continues-with_errors :
      {A : Type 0} (operation : String) (path : Text) (m : Exec (ManagedFile T) A)
      → Continues m
      → Continues (with_errors operation path m)
  unfolding with_errors
  Continues-with_errors operation path m h = record {
    live_eq = h.live_eq;
    releases_eq = h.releases_eq;
  }

ruleset continues_rules = (
  Continues-lift, Continues-on_backend, Continues-require_live, Continues-bind,
  Continues-with_errors,
)

module _ {T : Type 0} (backend : WritableBackend T) (path : Text) where
  Continues-work :
      (operation : String) (before after : Option AbortSignal) (m : Exec T (Unit {0}))
      → Continues (work backend path operation before after m)
  unfolding work
  Continues-work operation before after m = search continues_rules depth 8

  kept-IsOwned :
      (m : Exec (ManagedFile T) (Unit {0})) (f : ManagedFile T)
      → Continues m
      → IsOwned f
      → IsOwned (m f).1
  kept-IsOwned m f h o = h.releases_eq f ∙ o ∙ ap (λ t. if t then 0 else 1) (sym (h.live_eq f))

  given_back : (n : ℕ) (live : Bool) → n ≡ (if live then 0 else 1) → live ≡ true → n + 1 ≡ 1
  given_back n live o e = ground arith

  either-IsOwned :
      (p : Result (Unit {0}) × ManagedFile T) (f : ManagedFile T) (t : Bool)
      → (t ≡ true → IsOwned p.1)
      → IsOwned f
      → IsOwned (if t then p else (ok tt, f)).1
  either-IsOwned p f true h o = h refl
  either-IsOwned p f false h o = o

  settle-IsOwned :
      (m : Exec T (Unit {0})) (after : Result (Unit {0}) → Result (Unit {0})) (f : ManagedFile T)
      → IsOwned f
      → IsOwned (settle m after f).1
  unfolding settle
  settle-IsOwned m after f o = either-IsOwned _ f f.live (λ e. given_back f.releases f.live o e) o

  call-IsOwned : (c : FileCall) (f : ManagedFile T) → IsOwned f → IsOwned (call backend path c f).1
  unfolding call write truncate flush close abort
  call-IsOwned (writes bytes at before after) f o =
      kept-IsOwned _ f (Continues-work _ before after _) o
  call-IsOwned (truncates_to size before after) f o =
      kept-IsOwned _ f (Continues-work _ before after _) o
  call-IsOwned (flushes before after) f o = kept-IsOwned _ f (Continues-work _ before after _) o
  call-IsOwned closes f o = settle-IsOwned _ _ f o
  call-IsOwned aborts f o = settle-IsOwned _ _ f o

  -- A writable file gives its lock back exactly once. After any sequence of writes, truncations,
  -- flushes, closes and aborts on an opened file, failed ones included, the lock was given back once
  -- if the file is settled, and not at all if it is still live.
  pub run_calls-IsOwned :
      (cs : List FileCall) (f : ManagedFile T) → IsOwned f → IsOwned (run_calls backend path cs f)
  unfolding run_calls
  run_calls-IsOwned [] f o = o
  run_calls-IsOwned (c ∷ cs) f o =
      run_calls-IsOwned cs (call backend path c f).1 (call-IsOwned c f o)
