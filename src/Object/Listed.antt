-- ===== src/Object/Listed.antt =====
-- The names that a listing of the object adapter (src/adapter/object.ts) has seen and yielded.
use opfs.Prelude.{
  ◌≡◌, refl, ap, ◌∙◌, Option, none, some, Bool, true, false, ◌||◌, List, [], ◌∷◌, ◌++◌, Text, same,
  same_iff, arith,
}
use opfs.Adapter.{DirectoryEntry, EntryKind}
use opfs.Path.{ends_with_slash}
use opfs.Object.{
  ObjectPage, child_name, Listing, has_seen, note_new, note, note_prefixes, note_objects, note_page,
  kind_of_key,
}

abbrev pub has_name : List DirectoryEntry → Text → Bool
has_name [] name = false
has_name (e ∷ es) name = same e.name name || has_name es name

-- No two entries have one name.
abbrev pub Distinct : List DirectoryEntry → Type 0
Distinct [] = Unit
Distinct (e ∷ es) = (has_name es e.name ≡ false) × Distinct es

-- The names that were seen are those that were yielded, each of them once.
pub record IsListed (l : Listing) : Type 0 where
  pub same_names : (name : Text) → has_name l.yielded name ≡ has_seen l.seen name
  pub distinct : Distinct l.yielded

has_name-append :
    (es : List DirectoryEntry) (e : DirectoryEntry) (name : Text)
    → has_name (es ++ e ∷ []) name ≡ (same e.name name || has_name es name)
has_name-append [] e name = refl
has_name-append (x ∷ es) e name = ground (arith, has_name-append es e name)

same_swap : (s t : Text) → same s t ≡ false → same t s ≡ false
same_swap s t h = ground (arith, same_iff s t, same_iff t s)

Distinct-append :
    (es : List DirectoryEntry) (e : DirectoryEntry)
    → Distinct es
    → has_name es e.name ≡ false
    → Distinct (es ++ e ∷ [])
Distinct-append [] e d h = (refl, tt)
Distinct-append (x ∷ es) e (n, d) h = (
  has_name-append es e x.name ∙ ground (arith, same_swap x.name e.name),
  Distinct-append es e d (ground arith),
)

note_new-IsListed :
    (known : Bool) (name : Text) (kind : EntryKind) (l : Listing)
    → has_seen l.seen name ≡ known
    → IsListed l
    → IsListed (note_new known name kind l)
unfolding has_seen
note_new-IsListed true name kind l e h = h
note_new-IsListed false name kind l e h = record {
  same_names = λ n.
      has_name-append l.yielded (record { name = name; kind = kind }) n
      ∙ ap (λ b. same name n || b) (h.same_names n);
  distinct =
      Distinct-append l.yielded (record { name = name; kind = kind }) h.distinct
        (h.same_names name ∙ e);
}

pub note-IsListed :
    (name : Option Text) (kind : EntryKind) (l : Listing) → IsListed l → IsListed (note name kind l)
note-IsListed none kind l h = h
note-IsListed (some name) kind l h = note_new-IsListed (has_seen l.seen name) name kind l refl h

pub prefixes-IsListed :
    (parent : Text) (ps : List Text) (l : Listing)
    → IsListed l
    → IsListed (note_prefixes parent ps l)
unfolding note_prefixes
prefixes-IsListed parent [] l h = h
prefixes-IsListed parent (p ∷ ps) l h =
    prefixes-IsListed parent ps _ (note-IsListed (child_name parent p) EntryKind.directory l h)

pub objects-IsListed :
    (parent : Text) (keys : List Text) (l : Listing)
    → IsListed l
    → IsListed (note_objects parent keys l)
unfolding note_objects
objects-IsListed parent [] l h = h
objects-IsListed parent (key ∷ keys) l h =
    objects-IsListed parent keys _
      (note-IsListed (child_name parent key) (kind_of_key (ends_with_slash key)) l h)

pub page-IsListed :
    (parent : Text) (page : ObjectPage) (l : Listing)
    → IsListed l
    → IsListed (note_page parent page l)
unfolding note_page
page-IsListed parent page l h =
    objects-IsListed parent page.objects _ (prefixes-IsListed parent page.prefixes l h)

abbrev pub unlisted : Listing
unlisted = record { seen = []; yielded = [] }

pub unlisted-IsListed : IsListed unlisted
unfolding has_seen
unlisted-IsListed = record { same_names = λ name. refl; distinct = tt }

-- The listing after some pages.
abbrev pub note_pages : Text → List ObjectPage → Listing → Listing
note_pages parent [] l = l
note_pages parent (page ∷ pages) l = note_pages parent pages (note_page parent page l)

pub pages-IsListed :
    (parent : Text) (pages : List ObjectPage) (l : Listing)
    → IsListed l
    → IsListed (note_pages parent pages l)
pages-IsListed parent [] l h = h
pages-IsListed parent (page ∷ pages) l h =
    pages-IsListed parent pages _ (page-IsListed parent page l h)
