-- ===== src/Managed/Progress.antt =====
-- `writeAll` of src/sync.ts ends, with every byte handed over.
use opfs.Prelude.{
  ℕ, zero, suc, ◌+◌, ◌≤◌, ◌≡◌, refl, Option, none, some, Bool, true, false, Text, ltb, ◌==◌, length,
  drop, if◌then◌else◌, arith,
}
use opfs.Failure.{Result, ok, throw, fail, invalid_operation}
use opfs.Bytes.{Bytes}
use opfs.Exec.{Exec, lift, continue}
use opfs.Managed.{SyncBackend, ManagedFile}
use opfs.Managed.Sync.{write, shifted, write_from, write_all}

-- What `writeAll` may return: an error, or a count that covers the source.
abbrev pub Covers : ℕ → Result (Option ℕ) → Type 0
Covers n (throw e) = Unit
Covers n (ok none) = ⊥
Covers n (ok (some written)) = n ≤ written

module _ {T : Type 0} (backend : SyncBackend T) (path : Text) where
  continue-Covers :
      (n : ℕ) (p : Result ℕ × ManagedFile T) (next : ℕ → Exec (ManagedFile T) (Option ℕ))
      → ((count : ℕ) (g : ManagedFile T) → Covers n (next count g).0)
      → Covers n (continue p next).0
  continue-Covers n (throw e, g) next h = tt
  continue-Covers n (ok count, g) next h = h count g

  end-Covers :
      (n written : ℕ) (more : Bool)
      → (more ≡ false)
      → n ≤ written
      → Covers n (ok (if more then none else some written))
  end-Covers n written true e h = cc
  end-Covers n written false e h = h

  advance-Covers :
      (n : ℕ) (stuck : Bool) (m : Exec (ManagedFile T) (Option ℕ)) (g : ManagedFile T)
      → (stuck ≡ false → Covers n (m g).0)
      → Covers n ((if stuck then lift (fail invalid_operation "sync-write" (some path)) else m) g).0
  advance-Covers n true m g h = tt
  advance-Covers n false m g h = h refl

  loop-Covers :
      (n written : ℕ) (more : Bool) (p : Result (Option ℕ) × ManagedFile T) (f : ManagedFile T)
      → (more ≡ true → Covers n p.0)
      → (more ≡ false → n ≤ written)
      → Covers n (if more then p else (ok (some written), f)).0
  loop-Covers n written true p f h k = h refl
  loop-Covers n written false p f h k = k refl

  covered : (n written : ℕ) → ltb written n ≡ false → n ≤ written
  covered n written e = ground arith

  spent : (n written : ℕ) → n ≤ written + 0 → ltb written n ≡ false
  spent n written h = ground arith

  advanced :
      (n written fuel count : ℕ)
      → n ≤ written + suc fuel
      → (count == 0) ≡ false
      → n ≤ (written + count) + fuel
  advanced n written fuel count h e = ground arith

  write_from-Covers :
      (fuel : ℕ) (source : Bytes) (start : Option ℕ) (written : ℕ) (f : ManagedFile T)
      → length source ≤ written + fuel
      → Covers (length source) (write_from backend path fuel source start written f).0
  unfolding write_from
  write_from-Covers zero source start written f h =
      end-Covers (length source) written (ltb written (length source))
        (spent (length source) written h)
        (covered (length source) written (spent (length source) written h))
  write_from-Covers (suc fuel) source start written f h =
      loop-Covers (length source) written (ltb written (length source)) _ f
        (λ more.
          continue-Covers (length source)
            (write backend path (drop written source) (shifted start written) f) _
            λ count g. advance-Covers (length source) (count == 0) _ g λ moved.
              write_from-Covers fuel source start (written + count) g
                (advanced (length source) written fuel count h moved))
        (covered (length source) written)

  -- `writeAll` returns: its loop never runs out of the fuel of one round for each byte. The count that
  -- it returns covers the source; a round without progress, or an error of the adapter, is thrown.
  pub write_all-Covers :
      (source : Bytes) (start : Option ℕ) (f : ManagedFile T)
      → Covers (length source) (write_all backend path source start f).0
  unfolding write_all
  write_all-Covers source start f = write_from-Covers (length source) source start 0 f (omega arith)
