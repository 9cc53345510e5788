-- ===== src/LocalStorage/Refinement.antt =====
-- The Web Storage backend (src/driver/localstorage.ts) implements an abstract map from paths to records.
use opfs.Prelude.{◌≡◌, refl, ap, sym, subst, Option, none, List, [], ◌∷◌, ◌++◌, Text, All}
use opfs.Failure.{Result, ok, throw, Thrown}
use opfs.Exec.{Exec}
use opfs.Record.{StoredRecord, parse_record}
use opfs.LocalStorage.{
  UriText, RecordJson, WebStorage, colon, get_key, get_stored, set_stored, delete_stored,
}
use opfs.LocalStorage.Views.{
  View, put, erase, Represents, get_stored_eq, set_Represents, delete_Represents,
}

pub data StoreCall : Type 0 where
  get_call : Text → StoreCall
  set_call : StoredRecord → StoreCall
  delete_call : Text → StoreCall

-- Records that `RecordSchema` accepts, which are all that a record adapter sets.
abbrev pub IsValidCall : StoreCall → Type 0
IsValidCall (set_call r) = parse_record r ≡ ok r
IsValidCall (get_call path) = Unit
IsValidCall (delete_call path) = Unit

module _ {S : Type 0} (uri : UriText) (json : RecordJson) (storage : WebStorage S)
    (prefix : Text) where
  abbrev pub outcome : Result (Unit {0}) × S → Result (Option StoredRecord) × S
  outcome (ok a, s) = (ok none, s)
  outcome (throw e, s) = (throw e, s)

  unfoldable pub perform_call : StoreCall → Exec S (Option StoredRecord)
  perform_call (get_call path) s = get_stored uri json storage prefix path s
  perform_call (set_call r) s = outcome (set_stored uri json storage prefix r s)
  perform_call (delete_call path) s = outcome (delete_stored uri json storage prefix path s)

  unfoldable pub perform_calls : List StoreCall → S → List (Result (Option StoredRecord)) × S
  perform_calls [] s = ([], s)
  perform_calls (call ∷ calls) s =
      let (result, t) = perform_call call s in
      let (results, u) = perform_calls calls t in (result ∷ results, u)

  -- What a call may do to the abstract store that the area `s` represents. It fails only for a path
  -- that cannot be encoded or an item that the area refuses, and then nothing has changed.
  pub data Does (s : S) (view : View)
      : StoreCall → Result (Option StoredRecord) → View → Type 0 where
    found : (path : Text) → Does s view (get_call path) (ok (view path)) view
    stored : (r : StoredRecord) → Does s view (set_call r) (ok none) (put r view)
    erased : (path : Text) → Does s view (delete_call path) (ok none) (erase path view)
    get_refused :
        (path : Text) (e : Thrown)
        → uri.encode path ≡ throw e
        → Does s view (get_call path) (throw e) view
    set_refused :
        (r : StoredRecord) (e : Thrown)
        → uri.encode r.path ≡ throw e
        → Does s view (set_call r) (throw e) view
    delete_refused :
        (path : Text) (e : Thrown)
        → uri.encode path ≡ throw e
        → Does s view (delete_call path) (throw e) view
    full :
        (r : StoredRecord) (e : Thrown) (key : Text)
        → get_key uri json storage prefix r.path ≡ ok key
        → (storage.set_item key (json.stringify r) s).0 ≡ throw e
        → Does s view (set_call r) (throw e) view

  -- Calls one after the other, from an area and the abstract store that it represents.
  pub data Follows
      : S → View → List StoreCall → List (Result (Option StoredRecord)) → View → Type 0 where
    here : {s : S} {view : View} → Follows s view [] [] view
    then_call :
        {s : S} {view next end : View} {call : StoreCall} {calls : List StoreCall}
        {result : Result (Option StoredRecord)} {results : List (Result (Option StoredRecord))}
        → Does s view call result next
        → Follows (perform_call call s).1 next calls results end
        → Follows s view (call ∷ calls) (result ∷ results) end

  -- A step of the abstract store that explains a call.
  record Explains (s : S) (view : View) (call : StoreCall) (p : Result (Option StoredRecord) × S)
      : Type 0 where
    next_view : View
    does : Does s view call p.0 next_view
    represents : Represents uri json storage prefix p.1 next_view

  key_of :
      (path e : Text)
      → uri.encode path ≡ ok e
      → get_key uri json storage prefix path ≡ ok (prefix ++ (colon ∷ e))
  unfolding get_key
  key_of path e h = rw h refl

  no_key :
      (path : Text) (x : Thrown)
      → uri.encode path ≡ throw x
      → get_key uri json storage prefix path ≡ throw x
  unfolding get_key
  no_key path x h = rw h refl

  get_Explains :
      (path : Text) (s : S) (view : View) (r : Result Text)
      → uri.encode path ≡ r
      → Represents uri json storage prefix s view
      → Explains s view (get_call path) (get_stored uri json storage prefix path s)
  unfolding get_stored
  get_Explains path s view (ok e) h rep =
      subst (Explains s view (get_call path))
        (sym (
          get_stored_eq uri json storage prefix path (prefix ++ (colon ∷ e)) s view
            (key_of path e h) rep))
        (record { next_view = view; does = found path; represents = rep })
  get_Explains path s view (throw x) h rep =
      let refused : Explains s view (get_call path) (throw x, s) = record {
        next_view = view;
        does = get_refused path x h;
        represents = rep;
      } in
      rw (no_key path x h) refused

  written_Explains :
      (r : StoredRecord) (key : Text) (s : S) (view : View) (p : Result (Unit {0}) × S)
      → get_key uri json storage prefix r.path ≡ ok key
      → storage.set_item key (json.stringify r) s ≡ p
      → parse_record r ≡ ok r
      → Represents uri json storage prefix s view
      → Explains s view (set_call r) (outcome p)
  written_Explains r key s view (ok a, t) h written v rep = record {
    next_view = put r view;
    does = stored r;
    represents = set_Represents uri json storage prefix r key s t view h written v rep;
  }
  written_Explains r key s view (throw e, t) h written v rep = record {
    next_view = view;
    does = full r e key h (ap (λ q. q.0) written);
    represents =
        subst (λ u. Represents uri json storage prefix u view)
          (sym (storage.set_item_refused key (json.stringify r) s t e written)) rep;
  }

  set_Explains :
      (r : StoredRecord) (s : S) (view : View) (encoding : Result Text)
      → uri.encode r.path ≡ encoding
      → parse_record r ≡ ok r
      → Represents uri json storage prefix s view
      → Explains s view (set_call r) (outcome (set_stored uri json storage prefix r s))
  unfolding set_stored
  set_Explains r s view (ok e) h v rep =
      let key = key_of r.path e h in
      rw key (
        written_Explains r (prefix ++ (colon ∷ e)) s view
          (storage.set_item (prefix ++ (colon ∷ e)) (json.stringify r) s) key refl v rep)
  set_Explains r s view (throw x) h v rep =
      let refused : Explains s view (set_call r) (throw x, s) = record {
        next_view = view;
        does = set_refused r x h;
        represents = rep;
      } in
      rw (no_key r.path x h) refused

  delete_Explains :
      (path : Text) (s : S) (view : View) (encoding : Result Text)
      → uri.encode path ≡ encoding
      → Represents uri json storage prefix s view
      → Explains s view (delete_call path) (outcome (delete_stored uri json storage prefix path s))
  unfolding delete_stored
  delete_Explains path s view (ok e) h rep =
      let key = key_of path e h in
      let done : Explains s view (delete_call path)
          (ok none, storage.remove_item (prefix ++ (colon ∷ e)) s) =
        record {
          next_view = erase path view;
          does = erased path;
          represents =
              delete_Represents uri json storage prefix path (prefix ++ (colon ∷ e)) s view key rep;
        } in
      rw key done
  delete_Explains path s view (throw x) h rep =
      let refused : Explains s view (delete_call path) (throw x, s) = record {
        next_view = view;
        does = delete_refused path x h;
        represents = rep;
      } in
      rw (no_key path x h) refused

  call_Explains :
      (call : StoreCall) (s : S) (view : View)
      → IsValidCall call
      → Represents uri json storage prefix s view
      → Explains s view call (perform_call call s)
  unfolding perform_call
  call_Explains (get_call path) s view v rep = get_Explains path s view (uri.encode path) refl rep
  call_Explains (set_call r) s view v rep = set_Explains r s view (uri.encode r.path) refl v rep
  call_Explains (delete_call path) s view v rep =
      delete_Explains path s view (uri.encode path) refl rep

  -- The backend refines the abstract store. Where the storage area represents a map from paths to
  -- records, any calls of the backend, with records that the schema accepts, give results that the
  -- map explains one after the other: a lookup gives the map's record, a set or a deletion changes it
  -- at one path, and a call fails only for a path that cannot be encoded or a storage area that refuses
  -- an item, and changes nothing then. In the end the area represents the map that was reached.
  pub perform_calls-Follows :
      (calls : List StoreCall) (s : S) (view : View)
      → All IsValidCall calls
      → Represents uri json storage prefix s view
      → (end : View) × Follows s view calls (perform_calls calls s).0 end
        × Represents uri json storage prefix (perform_calls calls s).1 end
  unfolding perform_calls
  perform_calls-Follows [] s view v rep = (view, here, rep)
  perform_calls-Follows (call ∷ calls) s view (v, vs) rep =
      let step = call_Explains call s view v rep in
      let (end, follows, represents) =
        perform_calls-Follows calls (perform_call call s).1 step.next_view vs step.represents in
      (end, then_call step.does follows, represents)
