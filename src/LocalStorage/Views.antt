-- ===== src/LocalStorage/Views.antt =====
-- Maps from paths to records, and the storage areas that represent them under the keys of src/driver/localstorage.ts.
use mathlib.Core.Option
use opfs.Prelude.{
  ◌≡◌, refl, ap, ◌∙◌, sym, subst, Option, none, some, Bool, true, false, Bool-cases, inl, inr, [],
  ◌∷◌, ◌++◌, Text, same, same_iff, if◌then◌else◌,
}
use opfs.Failure.{Result, ok, throw}
use opfs.Record.{StoredRecord, parse_record}
use opfs.LocalStorage.{
  UriText, RecordJson, WebStorage, colon, keyed, get_key, read_value, read_item, get_stored,
}

-- The abstract store.
abbrev pub View : Type 0
View = Text → Option StoredRecord

abbrev pub put : StoredRecord → View → View
put r view q = if same r.path q then some r else view q

abbrev pub erase : Text → View → View
erase path view q = if same path q then none else view q

append_cancel : (p s t : Text) → p ++ s ≡ p ++ t → s ≡ t
append_cancel [] s t e = e
append_cancel (c ∷ p) s t e = append_cancel p s t cc

module _ {S : Type 0} (uri : UriText) (json : RecordJson) (storage : WebStorage S)
    (prefix : Text) where
  -- The storage area holds the abstract store under the keys of its paths.
  pub record Represents (s : S) (view : View) : Type 0 where
    pub items_eq :
        (path key : Text)
        → get_key uri json storage prefix path ≡ ok key
        → storage.get_item key s ≡ Option.map json.stringify (view path)
    pub valid : (path : Text) (r : StoredRecord) → view path ≡ some r → parse_record r ≡ ok r

  encoded :
      (path key : Text)
      → get_key uri json storage prefix path ≡ ok key
      → (e : Text) × (uri.encode path ≡ ok e) × (key ≡ prefix ++ (colon ∷ e))
  unfolding get_key
  encoded path key h = encoded_cases (uri.encode path) refl h
    where
      encoded_cases :
          (r : Result Text)
          → uri.encode path ≡ r
          → keyed uri json storage prefix r ≡ ok key
          → (e : Text) × (uri.encode path ≡ ok e) × (key ≡ prefix ++ (colon ∷ e))
      encoded_cases (ok e) c k = (e, c, cc)
      encoded_cases (throw x) c k = cc

  same_path :
      (p q k : Text)
      → get_key uri json storage prefix p ≡ ok k
      → get_key uri json storage prefix q ≡ ok k
      → p ≡ q
  same_path p q k h g =
      let (e, a, b) = encoded p k h in
      let (f, c, d) = encoded q k g in
      let tails : colon ∷ e ≡ colon ∷ f =
        append_cancel prefix (colon ∷ e) (colon ∷ f) (sym b ∙ d) in
      let tail : e ≡ f = cc in
      let one = uri.decode-encode p e a in
      let two = uri.decode-encode q f c in
      let both : ok p ≡ ok q = sym one ∙ ap uri.decode tail ∙ two in cc

  keys_same :
      (p q k l : Text)
      → get_key uri json storage prefix p ≡ ok k
      → get_key uri json storage prefix q ≡ ok l
      → same k l ≡ same p q
  keys_same p q k l h g = elim (Bool-cases (same p q)) [
    | inl e ↦
        let paths : p ≡ q = (same_iff p q).0 e in
        let keys : ok k ≡ ok l = sym h ∙ ap (get_key uri json storage prefix) paths ∙ g in
        let key : k ≡ l = cc in (same_iff k l).1 key ∙ sym e
    | inr e ↦ elim (Bool-cases (same k l)) [
      | inr f ↦ f ∙ sym e
      | inl f ↦
          let key : k ≡ l = (same_iff k l).0 f in
          let paths = same_path p q k h (g ∙ ap ok (sym key)) in
          absurd (true_false (sym ((same_iff p q).1 paths) ∙ e))
    ]
  ]
    where
      true_false : ¬ (true ≡ false)
      true_false x = cc

  -- The value at a key that represents an entry of the map is read back.
  read_view :
      (o : Option StoredRecord)
      → ((r : StoredRecord) → o ≡ some r → parse_record r ≡ ok r)
      → read_item uri json storage prefix (Option.map json.stringify o) ≡ ok o
  unfolding read_value
  read_view none h = refl
  read_view (some r) h = rw (json.parse-stringify r, h r refl) refl

  pub get_stored_eq :
      (path key : Text) (s : S) (view : View)
      → get_key uri json storage prefix path ≡ ok key
      → Represents s view
      → get_stored uri json storage prefix path s ≡ (ok (view path), s)
  unfolding get_stored
  get_stored_eq path key s view h rep =
      rw (h, rep.items_eq path key h)
        (ap (λ r. (r, s)) (read_view (view path) λ r e. rep.valid path r e))

  choose_item :
      (b : Bool) (r : StoredRecord) (o : Option StoredRecord) (item : Option Text)
      → item ≡ Option.map json.stringify o
      → (if b then some (json.stringify r) else item)
        ≡ Option.map json.stringify (if b then some r else o)
  choose_item true r o item e = refl
  choose_item false r o item e = e

  drop_item :
      (b : Bool) (o : Option StoredRecord) (item : Option Text)
      → item ≡ Option.map json.stringify o
      → (if b then none else item) ≡ Option.map json.stringify (if b then none else o)
  drop_item true o item e = refl
  drop_item false o item e = e

  put_valid :
      (b : Bool) (r x : StoredRecord) (o : Option StoredRecord)
      → parse_record r ≡ ok r
      → (o ≡ some x → parse_record x ≡ ok x)
      → (if b then some r else o) ≡ some x
      → parse_record x ≡ ok x
  put_valid true r x o v h e =
      let same_record : r ≡ x = cc in subst (λ y. parse_record y ≡ ok y) same_record v
  put_valid false r x o v h e = h e

  erase_valid :
      (b : Bool) (x : StoredRecord) (o : Option StoredRecord)
      → (o ≡ some x → parse_record x ≡ ok x)
      → (if b then none else o) ≡ some x
      → parse_record x ≡ ok x
  erase_valid true x o h e = cc
  erase_valid false x o h e = h e

  pub set_Represents :
      (r : StoredRecord) (key : Text) (s t : S) (view : View)
      → get_key uri json storage prefix r.path ≡ ok key
      → storage.set_item key (json.stringify r) s ≡ (ok tt, t)
      → parse_record r ≡ ok r
      → Represents s view
      → Represents t (put r view)
  set_Represents r key s t view h written v rep = record {
    items_eq = λ q l g.
        storage.get_item-set_item key (json.stringify r) s t l written
        ∙ ap (λ b. if b then some (json.stringify r) else storage.get_item l s)
            (keys_same r.path q key l h g)
        ∙ choose_item (same r.path q) r (view q) (storage.get_item l s) (rep.items_eq q l g);
    valid = λ q x e. put_valid (same r.path q) r x (view q) v (rep.valid q x) e;
  }

  pub delete_Represents :
      (path key : Text) (s : S) (view : View)
      → get_key uri json storage prefix path ≡ ok key
      → Represents s view
      → Represents (storage.remove_item key s) (erase path view)
  delete_Represents path key s view h rep = record {
    items_eq = λ q l g.
        storage.get_item-remove_item key s l
        ∙ ap (λ b. if b then none else storage.get_item l s) (keys_same path q key l h g)
        ∙ drop_item (same path q) (view q) (storage.get_item l s) (rep.items_eq q l g);
    valid = λ q x e. erase_valid (same path q) x (view q) (rep.valid q x) e;
  }
