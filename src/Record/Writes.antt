-- ===== src/Record/Writes.antt =====
-- Writing through the record adapter and reading back, over any record store.
use opfs.Prelude.{
  ℕ, ◌-◌, ◌≡◌, ◌≢◌, refl, ap, ◌∙◌, sym, Option, none, some, Bool, false, [], ◌∷◌, Text, same,
  same_iff, same_refl, length, take, arith, Bool-cases, inl, inr, if◌then◌else◌, subst, ◌⊎◌,
}
use opfs.Failure.{
  Result, ok, throw, package_error, type_mismatch, Thrown, throw_if_aborted, Result-cases,
}
use opfs.Bytes.{Bytes, WriteMode, replace, append, update, or_else, slice, apply_write}
use opfs.Path.{normalize_path}
use opfs.Adapter.{ReadOptions, WriteOptions}
use opfs.Record.{
  Base64, StoredRecord, RecordDriver, existing_bytes, previous_media_type, is_directory,
  file_record, read_record, assert_writable,
}
use opfs.Record.Store.{IsStore, Serves}
use opfs.Record.Operations.{
  lookup, store_image, previous_record, write_record, write_file, read_file,
}
use opfs.Record.Laws.{image_of, file_record-ok, file_record-path}

abbrev pub whole : ReadOptions
whole = record { at = none; size = none; signal = none }

take-length : (b : Bytes) → take (length b) b ≡ b
take-length [] = refl
take-length (x ∷ b) = ap (◌∷◌ x) (take-length b)

sub_zero : (n : ℕ) → n - 0 ≡ n
sub_zero n = omega arith

slice-all : (b : Bytes) → slice b 0 (length b) ≡ b
slice-all b = rw (sub_zero (length b)) (take-length b)

-- Reading the whole of a stored image.
read_record-whole :
    (base64 : Base64) (now : ℕ) (path : Text) (r : StoredRecord) (image : Bytes) (size : ℕ)
    (media : Text)
    → r.body
      ≡ some (record { base64_text = some (base64.encode image); size = size; media_type = media })
    → read_record base64 now path whole (some r) ≡ ok image
unfolding read_record
read_record-whole base64 now path r image size media e =
    rw (e, base64.decode-encode image) (ap ok (slice-all image))

other_path :
    (r : StoredRecord) (q : Text) (old : Option StoredRecord)
    → r.path ≢ q
    → (if same r.path q then some r else old) ≡ old
other_path r q old ne = elim (Bool-cases (same r.path q)) [
  | inl e ↦ absurd (ne ((same_iff r.path q).0 e))
  | inr e ↦ rw e refl
]

-- A failure that changed nothing, or the storing of one record at a path.
abbrev pub Outcome :
    {S : Type 0} {driver : RecordDriver S}
    → IsStore driver
    → S
    → Text
    → Result (Unit {0}) × S
    → Type 0
Outcome store s path r =
    ((e : Thrown) × (r ≡ (throw e, s)))
    ⊎ ((x : StoredRecord) × (r ≡ (ok tt, store.put x s)) × (x.path ≡ path))

module _ {S : Type 0} (base64 : Base64) (now : ℕ) {driver : RecordDriver S}
    (store : IsStore driver) where
  lookup_eq :
      (path : Text) (s : S) (p : Result (Option StoredRecord) × S)
      → driver.get path s ≡ p
      → lookup driver path s ≡ p
  lookup_eq path s p h = rw (store.no_stat, lookup) h

  previous_record_eq :
      (read_only : Bool) (path : Text) (mode : WriteMode) (s : S)
      (p : Result (Option StoredRecord) × S)
      → driver.get path s ≡ p
      → previous_record base64 now read_only driver path mode s ≡ p
  unfolding previous_record
  previous_record_eq read_only path replace s p h = lookup_eq path s p h
  previous_record_eq read_only path append s p h = h
  previous_record_eq read_only path update s p h = h

  -- A write that is allowed, after the lookup of what was there.
  write_file_eq :
      (read_only : Bool) (path : Text) (bytes : Bytes) (options : WriteOptions) (s : S)
      → assert_writable read_only "write" path ≡ ok tt
      → throw_if_aborted options.signal "write" (some path) ≡ ok tt
      → driver.get path s ≡ (ok (store.view s path), s)
      → write_file base64 now read_only driver path bytes options s
        ≡ store_image base64 now read_only driver path bytes options (store.view s path) s
  unfolding write_file write_record store_image
  write_file_eq read_only path bytes options s w a g =
      rw (w, a, store.no_write_file, previous_record_eq read_only path options.mode s _ g) refl

  write_file_lost :
      (read_only : Bool) (path : Text) (bytes : Bytes) (options : WriteOptions) (s : S) (e : Thrown)
      → assert_writable read_only "write" path ≡ ok tt
      → throw_if_aborted options.signal "write" (some path) ≡ ok tt
      → driver.get path s ≡ (throw e, s)
      → write_file base64 now read_only driver path bytes options s ≡ (throw e, s)
  unfolding write_file write_record
  write_file_lost read_only path bytes options s e w a g =
      rw (w, a, store.no_write_file, previous_record_eq read_only path options.mode s _ g) refl

  -- A write that is allowed replaces the record of its path.
  write_file-ok :
      (path : Text) (bytes old : Bytes) (options : WriteOptions) (s : S)
      → Serves store path
      → normalize_path path ≡ ok path
      → throw_if_aborted options.signal "write" (some path) ≡ ok tt
      → is_directory base64 now (store.view s path) ≡ false
      → existing_bytes base64 now options.mode (store.view s path) ≡ ok old
      → (r : StoredRecord) × (write_file base64 now false driver path bytes options s
          ≡ (ok tt, store.put r s))
        × (r.path ≡ path)
        × (r.body
            ≡ some (record {
              base64_text = some (base64.encode (image_of options old bytes));
              size = length (image_of options old bytes);
              media_type =
                  or_else options.media_type (previous_media_type base64 now (store.view s path));
            }))
  unfolding store_image
  write_file-ok path bytes old options s serves n a d h =
      let (r, built, at, body) =
        file_record-ok base64 now path bytes old options (store.view s path) n h in
      (
        r,
        write_file_eq false path bytes options s (unfold assert_writable in refl) a (serves.gets s)
            ∙ rw (d, built) (serves.sets r s at),
        at,
        body,
      )

  read_file_eq :
      (path : Text) (s : S)
      → Serves store path
      → (read_file base64 now false driver path whole s).0
        ≡ read_record base64 now path whole (store.view s path)
  unfolding read_file throw_if_aborted
  read_file_eq path s serves = rw (store.no_read_file, serves.gets s) refl

  -- Over a driver that stores complete records and has no stat, read or write of its own, reading a
  -- file after a write returns the image of that write over the old bytes: for a normalised path that
  -- is no directory, on an adapter that is not read-only and with a signal that is not aborted, where
  -- the old bytes can be decoded if the write needs them, and no lookup or set of the driver at the
  -- path fails.
  pub read_file-write_file :
      (path : Text) (bytes old : Bytes) (options : WriteOptions) (s : S)
      → Serves store path
      → normalize_path path ≡ ok path
      → throw_if_aborted options.signal "write" (some path) ≡ ok tt
      → is_directory base64 now (store.view s path) ≡ false
      → existing_bytes base64 now options.mode (store.view s path) ≡ ok old
      → (read_file base64 now false driver path whole
          (write_file base64 now false driver path bytes options s).1).0
        ≡ ok (apply_write old bytes options.mode options.at options.truncate)
  read_file-write_file path bytes old options s serves n a d h =
      let (r, e, at, body) = write_file-ok path bytes old options s serves n a d h in
      let seen : store.view (store.put r s) path ≡ some r =
        store.view-put r s path ∙ rw (at, same_refl path) refl in
      ap (λ t. (read_file base64 now false driver path whole t.1).0) e
      ∙ read_file_eq path (store.put r s) serves
      ∙ ap (read_record base64 now path whole) seen
      ∙ read_record-whole base64 now path r _ _ _ body

  image_cases :
      (read_only : Bool) (path : Text) (bytes : Bytes) (options : WriteOptions) (s : S)
      → Outcome store s path
          (store_image base64 now read_only driver path bytes options (store.view s path) s)
  unfolding store_image
  image_cases read_only path bytes options s =
      elim (Bool-cases (is_directory base64 now (store.view s path))) [
        | inl d ↦ inl (
          package_error (record {
            code = type_mismatch;
            operation = "write";
            path = some path;
            cause = none;
          }),
          rw d refl,
        )
        | inr d ↦
            elim (Result-cases (file_record base64 now path bytes options (store.view s path))) [
              | inr (e, failed) ↦ inl (e, rw (d, failed) refl)
              | inl (r, built) ↦ elim (store.set_cases r s) [
                | inr (e, failed) ↦ inl (e, rw (d, built) failed)
                | inl stored ↦ inr (
                  r,
                  rw (d, built) stored,
                  file_record-path base64 now path bytes options (store.view s path) r built,
                )
              ]
            ]
      ]

  allowed_cases :
      (read_only : Bool) (path : Text) (bytes : Bytes) (options : WriteOptions) (s : S)
      → assert_writable read_only "write" path ≡ ok tt
      → throw_if_aborted options.signal "write" (some path) ≡ ok tt
      → Outcome store s path (write_file base64 now read_only driver path bytes options s)
  allowed_cases read_only path bytes options s w a = elim (store.get_cases path s) [
    | inr (e, lost) ↦ inl (e, write_file_lost read_only path bytes options s e w a lost)
    | inl got ↦
        subst (Outcome store s path) (sym (write_file_eq read_only path bytes options s w a got))
          (image_cases read_only path bytes options s)
  ]

  pub write_file_cases :
      (read_only : Bool) (path : Text) (bytes : Bytes) (options : WriteOptions) (s : S)
      → Outcome store s path (write_file base64 now read_only driver path bytes options s)
  write_file_cases read_only path bytes options s =
      elim (Result-cases (assert_writable read_only "write" path)) [
        | inr (e, failed) ↦ inl (e, unfold write_file in rw failed refl)
        | inl (_, w) ↦ elim (Result-cases (throw_if_aborted options.signal "write" (some path))) [
          | inr (e, failed) ↦ inl (e, unfold write_file in rw (w, failed) refl)
          | inl (_, a) ↦ allowed_cases read_only path bytes options s w a
        ]
      ]

  pub view-write_file_ne :
      (read_only : Bool) (path q : Text) (bytes : Bytes) (options : WriteOptions) (s : S)
      → path ≢ q
      → store.view (write_file base64 now read_only driver path bytes options s).1 q
        ≡ store.view s q
  view-write_file_ne read_only path q bytes options s ne =
      elim (write_file_cases read_only path bytes options s) [
        | inl (e, failed) ↦ ap (λ t. store.view t.1 q) failed
        | inr (r, stored, at) ↦
            ap (λ t. store.view t.1 q) stored
            ∙ store.view-put r s q
            ∙ other_path r q (store.view s q) (λ z. ne (sym at ∙ z))
      ]
