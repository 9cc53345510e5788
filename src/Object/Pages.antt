-- ===== src/Object/Pages.antt =====
-- What a listing yields from the pages of a provider (src/adapter/object.ts).
use opfs.Prelude.{
  ℕ, zero, suc, ◌≤◌, ◌≡◌, refl, ap, ◌∙◌, sym, subst, Option, none, some, Bool, true, false, List,
  [], ◌∷◌, ◌++◌, Text, arith, if◌then◌else◌,
}
use opfs.Failure.{ok, AbortSignal, throw_if_aborted}
use opfs.Adapter.{DirectoryEntry, EntryKind}
use opfs.Path.{ends_with_slash}
use opfs.Object.{
  ObjectPage, ObjectDriver, directory_key, child_name, Listing, has_seen, note_new, note,
  note_prefixes, note_objects, note_page, kind_of_key,
}
use opfs.Object.Operations.{list_pages, list_objects}
use opfs.Object.Listed.{
  has_name, Distinct, IsListed, note-IsListed, prefixes-IsListed, page-IsListed, unlisted,
  unlisted-IsListed, note_pages, pages-IsListed,
}

abbrev pub count {ℓ} : {A : Type ℓ} → List A → ℕ
count [] = 0
count (x ∷ xs) = suc (count xs)

-- The entry of a key, if the key names a child of the directory.
abbrev pub child_entries : Text → EntryKind → Text → List DirectoryEntry
child_entries parent kind key = elim (child_name parent key) [
  | none ↦ []
  | some name ↦ record { name = name; kind = kind } ∷ []
]

abbrev pub prefix_entries : Text → List Text → List DirectoryEntry
prefix_entries parent [] = []
prefix_entries parent (key ∷ keys) =
    child_entries parent EntryKind.directory key ++ prefix_entries parent keys

abbrev pub object_entries : Text → List Text → List DirectoryEntry
object_entries parent [] = []
object_entries parent (key ∷ keys) =
    child_entries parent (if ends_with_slash key then EntryKind.directory else EntryKind.file) key
    ++ object_entries parent keys

-- The children in some pages: of each page its prefixes, which are directories, and then its
-- objects, which are directories where the key ends with a slash and files otherwise.
abbrev pub page_entries : Text → List ObjectPage → List DirectoryEntry
page_entries parent [] = []
page_entries parent (page ∷ pages) =
    (prefix_entries parent page.prefixes ++ object_entries parent page.objects)
    ++ page_entries parent pages

-- The entries that are kept, and of some more the first one of each new name.
unfoldable pub keep_new : List DirectoryEntry → List DirectoryEntry → List DirectoryEntry
keep_new kept [] = kept
keep_new kept (e ∷ es) =
    let with_e = keep_new (kept ++ e ∷ []) es in
    let without = keep_new kept es in if has_name kept e.name then without else with_e

keep_new-append :
    (kept xs ys : List DirectoryEntry) → keep_new kept (xs ++ ys) ≡ keep_new (keep_new kept xs) ys
unfolding keep_new
keep_new-append kept [] ys = refl
keep_new-append kept (x ∷ xs) ys =
    kept_either (has_name kept x.name) (keep_new kept xs) (keep_new (kept ++ x ∷ []) xs)
      (keep_new-append kept xs ys) (keep_new-append (kept ++ x ∷ []) xs ys)
  where
    kept_either :
        (b : Bool) (c e : List DirectoryEntry) {a d : List DirectoryEntry}
        → a ≡ keep_new c ys
        → d ≡ keep_new e ys
        → (if b then a else d) ≡ keep_new (if b then c else e) ys
    kept_either true c e h k = h
    kept_either false c e h k = k

note_new-yielded :
    (known : Bool) (name : Text) (kind : EntryKind) (l : Listing)
    → has_name l.yielded name ≡ known
    → (note_new known name kind l).yielded
      ≡ keep_new l.yielded (record { name = name; kind = kind } ∷ [])
unfolding keep_new
note_new-yielded true name kind l h = rw h refl
note_new-yielded false name kind l h = rw h refl

noted_name :
    (name : Option Text) (kind : EntryKind) (l : Listing)
    → IsListed l
    → (note name kind l).yielded
      ≡ keep_new l.yielded
          (elim name [ none ↦ [] | some n ↦ record { name = n; kind = kind } ∷ [] ])
unfolding keep_new
noted_name none kind l h = refl
noted_name (some name) kind l h =
    note_new-yielded (has_seen l.seen name) name kind l (h.same_names name)

prefixes-yielded :
    (parent : Text) (ps : List Text) (l : Listing)
    → IsListed l
    → (note_prefixes parent ps l).yielded ≡ keep_new l.yielded (prefix_entries parent ps)
unfolding note_prefixes keep_new
prefixes-yielded parent [] l h = refl
prefixes-yielded parent (p ∷ ps) l h =
    prefixes-yielded parent ps _ (note-IsListed (child_name parent p) EntryKind.directory l h)
    ∙ ap (λ k. keep_new k (prefix_entries parent ps))
        (noted_name (child_name parent p) EntryKind.directory l h)
    ∙ sym (
        keep_new-append l.yielded (child_entries parent EntryKind.directory p)
          (prefix_entries parent ps))

same_kind : (b : Bool) → kind_of_key b ≡ (if b then EntryKind.directory else EntryKind.file)
same_kind true = refl
same_kind false = refl

objects-yielded :
    (parent : Text) (keys : List Text) (l : Listing)
    → IsListed l
    → (note_objects parent keys l).yielded ≡ keep_new l.yielded (object_entries parent keys)
unfolding note_objects keep_new
objects-yielded parent [] l h = refl
objects-yielded parent (key ∷ keys) l h =
    let kind = kind_of_key (ends_with_slash key) in
    objects-yielded parent keys _ (note-IsListed (child_name parent key) kind l h)
    ∙ ap (λ k. keep_new k (object_entries parent keys))
        (noted_name (child_name parent key) kind l h)
    ∙ sym (keep_new-append l.yielded (child_entries parent kind key) (object_entries parent keys))
    ∙ ap (λ k. keep_new l.yielded (child_entries parent k key ++ object_entries parent keys))
        (same_kind (ends_with_slash key))

pages-yielded :
    (parent : Text) (pages : List ObjectPage) (l : Listing)
    → IsListed l
    → (note_pages parent pages l).yielded ≡ keep_new l.yielded (page_entries parent pages)
unfolding note_page keep_new
pages-yielded parent [] l h = refl
pages-yielded parent (page ∷ pages) l h =
    let between = note_prefixes parent page.prefixes l in
    let ps = prefix_entries parent page.prefixes in
    let os = object_entries parent page.objects in
    pages-yielded parent pages _ (unfold note_page in page-IsListed parent page l h)
    ∙ ap (λ k. keep_new k (page_entries parent pages))
        (objects-yielded parent page.objects between (prefixes-IsListed parent page.prefixes l h)
          ∙ ap (λ k. keep_new k os) (prefixes-yielded parent page.prefixes l h)
          ∙ sym (keep_new-append l.yielded ps os))
    ∙ sym (keep_new-append l.yielded (ps ++ os) (page_entries parent pages))

-- A provider that hands out the pages of a prefix, each with the cursor of the next one, and the last
-- without a cursor.
pub data Paged {S : Type 0} (driver : ObjectDriver S) (parent : Text) (signal : Option AbortSignal)
    : Option Text → S → List ObjectPage → S → Type 0 where
  last :
      {cursor : Option Text} {s t : S} {page : ObjectPage}
      → driver.list parent none cursor signal s ≡ (ok page, t)
      → page.cursor ≡ none
      → Paged driver parent signal cursor s (page ∷ []) t
  next :
      {cursor : Option Text} {s t u : S} {page : ObjectPage} {pages : List ObjectPage}
      (following : Text)
      → driver.list parent none cursor signal s ≡ (ok page, t)
      → page.cursor ≡ some following
      → Paged driver parent signal (some following) t pages u
      → Paged driver parent signal cursor s (page ∷ pages) u

module _ {S : Type 0} (driver : ObjectDriver S) (prefix : Text) where
  pages_are_listed :
      (fuel : ℕ) (parent : Text) (signal : Option AbortSignal) {cursor : Option Text} {s u : S}
      {pages : List ObjectPage} (l : Listing)
      → Paged driver parent signal cursor s pages u
      → count pages ≤ fuel
      → list_pages driver prefix fuel parent signal cursor l s
        ≡ (ok (note_pages parent pages l).yielded, u)
  unfolding list_pages note_page
  pages_are_listed zero parent signal l (last e c) h = absurd (omega arith)
  pages_are_listed zero parent signal l (next following e c rest) h = absurd (omega arith)
  pages_are_listed (suc fuel) parent signal l (last e c) h = rw (e, c) refl
  pages_are_listed (suc fuel) parent signal l (next following e c rest) h =
      rw (e, c) (pages_are_listed fuel parent signal _ rest (omega arith))

  -- Over a provider that hands out its pages to an end, and with a round of fuel for each page, a
  -- listing returns and leaves the provider as the pages did. It yields the children in the pages, in
  -- their order, the first of each name, so that no two entries have one name.
  pub list_objects-Distinct :
      (fuel : ℕ) (path : Text) (signal : Option AbortSignal) (s u : S) (pages : List ObjectPage)
      → throw_if_aborted signal "read-dir" (some path) ≡ ok tt
      → Paged driver (directory_key prefix path) signal none s pages u
      → count pages ≤ fuel
      → (list_objects driver prefix fuel path signal s
          ≡ (ok (keep_new [] (page_entries (directory_key prefix path) pages)), u))
        × Distinct (keep_new [] (page_entries (directory_key prefix path) pages))
  unfolding list_objects
  list_objects-Distinct fuel path signal s u pages going paged enough =
      let parent = directory_key prefix path in
      let listed = pages-yielded parent pages unlisted unlisted-IsListed in
      (
        rw going (pages_are_listed fuel parent signal unlisted paged enough)
            ∙ ap (λ es. (ok es, u)) listed,
        subst Distinct listed (pages-IsListed parent pages unlisted unlisted-IsListed).distinct,
      )
