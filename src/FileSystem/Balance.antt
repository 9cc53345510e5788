-- ===== src/FileSystem/Balance.antt =====
-- The lock and buffer discipline of the facade: the books that its events keep, and the rules by
-- which an operation leaves them closed.
use opfs.Prelude.{
  ℕ, ◌+◌, ◌-◌, ◌≡◌, refl, ◌∙◌, sym, subst, Option, none, some, Bool, true, false, List, [], ◌∷◌,
  ◌++◌, Text, leb, if◌then◌else◌, Option-cases, inl, inr,
}
use opfs.Failure.{Result, ok, throw, Thrown, AbortSignal}
use opfs.Exec.{Exec, lift, continue, ◌>>=◌}
use opfs.FileSystem.{
  Event, acquired_tree, acquired_file, buffered, unbuffered, released, recorded, Facade, Act,
  on_store, emit, finally, catch, acquire_tree, acquire_file, assert_open,
}
use opfs.FileSystem.Operations.{under_tree, under_file}

-- Whether the facade holds a lock, and the bytes that it holds in buffers.
pub record Book : Type 0 where
  pub holds : Bool
  pub bytes : ℕ

-- A lock is taken only when none is held and given back only when one is; no more bytes leave the
-- buffers than are there.
unfoldable pub enter : Event → Book → Option Book
enter acquired_tree b = if b.holds then none else some (record b { holds = true })
enter (acquired_file path) b = if b.holds then none else some (record b { holds = true })
enter released b = if b.holds then some (record b { holds = false }) else none
enter (buffered n) b = some (record b { bytes = b.bytes + n })
enter (unbuffered n) b = if leb n b.bytes then some (record b { bytes = b.bytes - n }) else none
enter (recorded m s n failed) b = some b

unfoldable pub book_below : Book → List Event → Option Book
book_below b [] = some b
book_below b (e ∷ es) = elim (enter e b) [ none ↦ none | some c ↦ book_below c es ]

abbrev pub closed_book : Book
closed_book = record { holds = false; bytes = 0 }

abbrev pub open_book : Book
open_book = record { holds = true; bytes = 0 }

-- The books after the events of a facade.
abbrev pub Stands : {S : Type 0} → Facade S → Book → Type 0
Stands f b = book_below closed_book f.events ≡ some b

abbrev pub Ends : {S A : Type 0} → Book → Book → Result A × Facade S → Type 0
Ends good bad (ok a, g) = Stands g good
Ends good bad (throw e, g) = Stands g bad

-- From one state of the books to another, or to a third where the action throws.
pub record Leads {S A : Type 0} (before : Book) (m : Act S A) (good bad : Book) : Type 0 where
  pub at : (f : Facade S) → Stands f before → Ends good bad (m f)

below_cons :
    (x : Event) (es : List Event) (b y : Book)
    → enter x b ≡ some y
    → book_below b (x ∷ es) ≡ book_below y es
unfolding book_below
below_cons x es b y e = rw (e, book_below) refl

below_stops :
    (x : Event) (es : List Event) (b : Book) → enter x b ≡ none → book_below b (x ∷ es) ≡ none
unfolding book_below
below_stops x es b e = rw (e, book_below) refl

none-some : {c : Book} → ¬ (none ≡ some c)
none-some e = cc

some-injective : {b c : Book} → some b ≡ some c → b ≡ c
some-injective e = cc

-- The books after the first of some events.
pub below_first :
    (e : Event) (es : List Event) (b c : Book)
    → book_below b (e ∷ es) ≡ some c
    → (d : Book) × (enter e b ≡ some d) × (book_below d es ≡ some c)
below_first e es b c h = elim (Option-cases (enter e b)) [
  | inl q ↦ absurd (none-some (sym (below_stops e es b q) ∙ h))
  | inr (d, q) ↦ (d, q, sym (below_cons e es b d q) ∙ h)
]

pub below-append :
    (es : List Event) (e : Event) (b c d : Book)
    → book_below b es ≡ some c
    → enter e c ≡ some d
    → book_below b (es ++ e ∷ []) ≡ some d
unfolding book_below
below-append [] e b c d h g =
    below_cons e [] b d (subst (λ z. enter e z ≡ some d) (sym (some-injective h)) g)
below-append (x ∷ es) e b c d h g = elim (Option-cases (enter x b)) [
  | inl q ↦ absurd (none-some (sym (below_stops x es b q) ∙ h))
  | inr (y, q) ↦
      below_cons x (es ++ e ∷ []) b y q
      ∙ below-append es e y c d (sym (below_cons x es b y q) ∙ h) g
]

module _ {S : Type 0} where
  pub emit-Leads : (e : Event) (b c d : Book) → enter e b ≡ some c → Leads {S = S} b (emit e) c d
  unfolding emit
  emit-Leads e b c d h = record { at = λ f s. below-append f.events e closed_book b c s h }

  pub Stands-both :
      {A : Type 0} (r : Result A) (g : Facade S) (b : Book) → Stands g b → Ends b b (r, g)
  Stands-both (ok a) g b s = s
  Stands-both (throw e) g b s = s

  pub lift-Leads : {A : Type 0} (r : Result A) (b : Book) → Leads {S = S} b (lift r) b b
  lift-Leads r b = record { at = λ f s. Stands-both r f b s }

  pub on_store-Leads : {A : Type 0} (m : Exec S A) (b : Book) → Leads b (on_store m) b b
  unfolding on_store
  on_store-Leads m b = record {
    at = λ f s. Stands-both (m f.store).0 (record f { store = (m f.store).1 }) b s;
  }

  continue-Leads :
      {A B : Type 0} (p : Result A × Facade S) (k : A → Act S B) (c d e : Book)
      → Ends c d p
      → ((a : A) → Leads c (k a) e d)
      → Ends e d (continue p k)
  continue-Leads (ok a, g) k c d e h n = (n a).at g h
  continue-Leads (throw x, g) k c d e h n = h

  pub bind-Leads :
      {A B : Type 0} (m : Act S A) (k : A → Act S B) (b c d e : Book)
      → Leads b m c d
      → ((a : A) → Leads c (k a) e d)
      → Leads b (m >>= k) e d
  bind-Leads m k b c d e h n = record { at = λ f s. continue-Leads (m f) k c d e (h.at f s) n }

  pub if_Leads :
      {A : Type 0} (t : Bool) (m n : Act S A) (b c d : Book)
      → Leads b m c d
      → Leads b n c d
      → Leads b (if t then m else n) c d
  if_Leads true m n b c d h k = h
  if_Leads false m n b c d h k = k

  after_last :
      {A : Type 0} (r : Result A) (g : Facade S) (e : Event) (c d : Book)
      → Ends c c (r, g)
      → enter e c ≡ some d
      → Ends d d (r, (emit e g).1)
  unfolding emit
  after_last (ok a) g e c d h q = below-append g.events e closed_book c d h q
  after_last (throw x) g e c d h q = below-append g.events e closed_book c d h q

  pub finally-Leads :
      {A : Type 0} (m : Act S A) (e : Event) (b c d : Book)
      → Leads b m c c
      → enter e c ≡ some d
      → Leads b (finally m (emit e)) d d
  unfolding finally
  finally-Leads m e b c d h g = record { at = λ f s. after_last (m f).0 (m f).1 e c d (h.at f s) g }

  after_catch :
      {A : Type 0} (r : Result A) (g : Facade S) (k : Thrown → Act S A) (c d e : Book)
      → Ends c d (r, g)
      → ((x : Thrown) → Leads d (k x) c e)
      → Ends {S = S} {A = A} c e (elim r [ ok a ↦ (ok a, g) | throw x ↦ k x g ])
  after_catch (ok a) g k c d e h n = h
  after_catch (throw x) g k c d e h n = (n x).at g h

  pub catch-Leads :
      {A : Type 0} (m : Act S A) (k : Thrown → Act S A) (b c d e : Book)
      → Leads b m c d
      → ((x : Thrown) → Leads d (k x) c e)
      → Leads b (catch m k) c e
  unfolding catch
  catch-Leads m k b c d e h n = record {
    at = λ f s. after_catch (m f).0 (m f).1 k c d e (h.at f s) n;
  }

  refuse-Ends :
      (t : Bool) (e : Thrown) (g : Facade S) (b : Book)
      → Stands g b
      → Ends {A = Unit {0}} b b (if t then (throw e, g) else (ok tt, g))
  refuse-Ends true e g b s = s
  refuse-Ends false e g b s = s

  pub open-Leads : (b : Book) → Leads {S = S} b assert_open b b
  unfolding assert_open
  open-Leads b = record { at = λ f s. refuse-Ends f.closed _ f b s }

  acquire_tree-Leads :
      (signal : Option AbortSignal)
      → Leads {S = S} closed_book (acquire_tree signal) open_book closed_book
  unfolding acquire_tree enter
  acquire_tree-Leads signal =
      bind-Leads _ _ closed_book closed_book closed_book open_book (lift-Leads _ closed_book)
        λ _. emit-Leads acquired_tree closed_book open_book closed_book refl

  pub acquire_file-Leads :
      (signal : Option AbortSignal) (path : Text)
      → Leads {S = S} closed_book (acquire_file signal path) open_book closed_book
  unfolding acquire_file enter
  acquire_file-Leads signal path =
      bind-Leads _ _ closed_book closed_book closed_book open_book (lift-Leads _ closed_book)
        λ _. emit-Leads (acquired_file path) closed_book open_book closed_book refl

  pub under_tree-Leads :
      {A : Type 0} (signal : Option AbortSignal) (m : Act S A)
      → Leads open_book m open_book open_book
      → Leads closed_book (under_tree signal m) closed_book closed_book
  unfolding under_tree enter
  under_tree-Leads signal m h =
      bind-Leads _ _ closed_book open_book closed_book closed_book (acquire_tree-Leads signal)
        λ _. finally-Leads m released open_book open_book closed_book h refl

  pub under_file-Leads :
      {A : Type 0} (signal : Option AbortSignal) (path : Text) (m : Act S A)
      → Leads open_book m open_book open_book
      → Leads closed_book (under_file signal path m) closed_book closed_book
  unfolding under_file enter
  under_file-Leads signal path m h =
      bind-Leads _ _ closed_book open_book closed_book closed_book (acquire_file-Leads signal path)
        λ _. finally-Leads m released open_book open_book closed_book h refl
