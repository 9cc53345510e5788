-- ===== src/LocalStorage/Tests.antt =====
-- A witness for the refinement: a storage area as an association list, texts that need no encoding, and
-- records written as blocks with their lengths in front.
use opfs.Prelude.{
  ℕ, zero, suc, ◌≡◌, refl, ap, Option, none, some, List, [], ◌∷◌, ◌++◌, Text, codes, same, same_iff,
  length, take, drop, arith, if◌then◌else◌,
}
use opfs.Failure.{Result, ok, throw, Thrown}
use opfs.Record.{StoredRecord, FileBody, parse_record}
use opfs.Path.{
  path_schema, ends_with_slash, includes_double_slash, every_part, includes, split, starts_with,
}
use opfs.LocalStorage.{UriText, RecordJson, WebStorage, storage_prefix, strip_colons}
use opfs.LocalStorage.Views.{View, Represents}
use opfs.LocalStorage.Refinement.{
  StoreCall, get_call, set_call, delete_call, Follows, perform_calls, perform_calls-Follows,
}

prefix_of : storage_prefix (some (codes "app::")) ≡ codes "app"
unfolding storage_prefix strip_colons
prefix_of = refl

abbrev Items : Type 0
Items = List (Text × Text)

get_item : Text → Items → Option Text
get_item key [] = none
get_item key ((k, v) ∷ items) = if same k key then some v else get_item key items

remove_item : Text → Items → Items
remove_item key [] = []
remove_item key ((k, v) ∷ items) =
    let rest = remove_item key items in if same k key then rest else (k, v) ∷ rest

get_item-remove_item :
    (key : Text) (items : Items) (q : Text)
    → get_item q (remove_item key items) ≡ (if same key q then none else get_item q items)
unfolding get_item remove_item
get_item-remove_item key [] q = ground arith
get_item-remove_item key ((k, v) ∷ items) q =
    ground (arith, same_iff k key, same_iff k q, same_iff key q, get_item-remove_item key items q)

abbrev item_keys : Items → List Text
item_keys [] = []
item_keys ((k, v) ∷ items) = k ∷ item_keys items

abbrev set_item : Text → Text → Items → Result (Unit {0}) × Items
set_item key value s = (ok tt, (key, value) ∷ s)

set_then_get :
    (key value : Text) (s t : Items) (q : Text)
    → set_item key value s ≡ (ok tt, t)
    → get_item q t ≡ (if same key q then some value else get_item q s)
unfolding get_item
set_then_get key value s t q e = let grown : t ≡ (key, value) ∷ s = cc in ap (get_item q) grown

never_refused :
    (key value : Text) (s t : Items) (e : Thrown) → set_item key value s ≡ (throw e, t) → t ≡ s
never_refused key value s t e h = cc

area : WebStorage Items
area = record {
  get_item = get_item;
  set_item = set_item;
  remove_item = remove_item;
  keys = item_keys;
  get_item-set_item = set_then_get;
  set_item_refused = never_refused;
  get_item-remove_item = get_item-remove_item;
}

abbrev as_is : Text → Result Text
as_is t = ok t

same_text : (t e : Text) → as_is t ≡ ok e → as_is e ≡ ok t
same_text t e h = cc

abbrev plain_uri : UriText
plain_uri = record { encode = as_is; decode = as_is; decode-encode = same_text }

abbrev block : Text → Text
block t = length t ∷ t

-- The block at the front of a text, and what follows it.
abbrev front : Text → Text
front [] = []
front (n ∷ s) = take n s

abbrev behind : Text → Text
behind [] = []
behind (n ∷ s) = drop n s

take_append : (t rest : Text) → take (length t) (t ++ rest) ≡ t
take_append [] rest = refl
take_append (c ∷ t) rest = ap (λ s. c ∷ s) (take_append t rest)

drop_append : (t rest : Text) → drop (length t) (t ++ rest) ≡ rest
drop_append [] rest = refl
drop_append (c ∷ t) rest = drop_append t rest

abbrev body_text : Option FileBody → Text
body_text none = []
body_text (some b) = elim b.base64_text [
  | none ↦ 0 ∷ b.size ∷ b.media_type
  | some encoded ↦ 1 ∷ b.size ∷ (block b.media_type ++ encoded)
]

abbrev body_of : Text → Option FileBody
body_of (zero ∷ n ∷ s) = some (record { base64_text = none; size = n; media_type = s })
body_of (suc k ∷ n ∷ s) =
    some (record { base64_text = some (behind s); size = n; media_type = front s })
body_of _ = none

body_back : (body : Option FileBody) → body_of (body_text body) ≡ body
body_back none = refl
body_back (some b) = encoded_back b.base64_text refl
  where
    encoded_back :
        (encoded : Option Text)
        → b.base64_text ≡ encoded
        → body_of (elim encoded [
          | none ↦ 0 ∷ b.size ∷ b.media_type
          | some text ↦ 1 ∷ b.size ∷ (block b.media_type ++ text)
        ])
          ≡ some (record b { base64_text = encoded })
    encoded_back none e = refl
    encoded_back (some text) e =
        rw (take_append b.media_type text, drop_append b.media_type text) refl

abbrev record_text : StoredRecord → Text
record_text r =
    block r.path ++ (block r.parent ++ (block r.name ++ (r.last_modified ∷ body_text r.body)))

abbrev modified_of : Text → ℕ
modified_of [] = 0
modified_of (n ∷ s) = n

abbrev rest_of : Text → Text
rest_of [] = []
rest_of (n ∷ s) = s

abbrev record_of : Text → StoredRecord
record_of s = record {
  path = front s;
  parent = front (behind s);
  name = front (behind (behind s));
  last_modified = modified_of (behind (behind (behind s)));
  body = body_of (rest_of (behind (behind (behind s))));
}

record_back : (r : StoredRecord) → record_of (record_text r) ≡ r
record_back r =
    let tail_text = r.last_modified ∷ body_text r.body in
    let after_parent = block r.name ++ tail_text in
    let after_path = block r.parent ++ after_parent in
    rw
      (
        drop_append r.path after_path,
        take_append r.path after_path,
        drop_append r.parent after_parent,
        take_append r.parent after_parent,
        drop_append r.name tail_text,
        take_append r.name tail_text,
        body_back r.body,
      )
      refl

plain_json : RecordJson
plain_json = record {
  stringify = record_text;
  parse = λ s. ok (record_of s);
  parse-stringify = λ r. ap ok (record_back r);
}

abbrev root_note : StoredRecord
root_note = record {
  path = codes "/n";
  parent = codes "/";
  name = codes "n";
  last_modified = 7;
  body = some (record { base64_text = some (codes "QQ"); size = 1; media_type = [] });
}

note_valid : parse_record root_note ≡ ok root_note
unfolding parse_record path_schema ends_with_slash includes_double_slash every_part includes split
    starts_with same
note_valid = refl

abbrev some_calls : List StoreCall
some_calls =
    get_call (codes "/n")
    ∷ set_call root_note
    ∷ get_call (codes "/n")
    ∷ delete_call (codes "/n")
    ∷ []

abbrev no_records : View
no_records path = none

empty_Represents : Represents plain_uri plain_json area (codes "app") [] no_records
unfolding area get_item
empty_Represents = record { items_eq = λ path key h. refl; valid = λ path r e. cc }

perform_calls-Follows_example :
    (end : View) × Follows plain_uri plain_json area
      (codes "app")
      []
      no_records
      some_calls
      (perform_calls plain_uri plain_json area (codes "app") some_calls []).0
      end
    × Represents plain_uri plain_json area
        (codes "app")
        (perform_calls plain_uri plain_json area (codes "app") some_calls []).1
        end
perform_calls-Follows_example =
    perform_calls-Follows plain_uri plain_json area (codes "app") some_calls [] no_records
      (tt, (note_valid, (tt, (tt, tt)))) empty_Represents
