-- ===== src/Backup/Samples.antt =====
-- Test data: a toy codec, and a database that is a list of versions.
use mpcium.Base.{
  ℕ, ◌<◌, ◌≤◌, ◌≡◌, refl, Bool, true, false, if◌then◌else◌, ltb, Option, none, some, List, [], ◌∷◌,
  ◌++◌, select, Str, arith, ◌⊎◌, inl, inr, Bool-cases,
}
use mpcium.Encryption.Samples.{toy_aead}
use mpcium.Text.Pack.{pack, unpack, unpack-pack}
use mpcium.Backup.{Library, Badger, Meta, VersionInfo}

abbrev pub read_numbers : Str → Str → Str → Str → Option Meta
read_numbers algo nonce created (since ∷ next_since ∷ id) = some (record {
  algo = algo;
  nonce_b64 = nonce;
  created_at = created;
  since = since;
  next_since = next_since;
  encryption_key_id = id;
})
read_numbers algo nonce created s = none

abbrev pub toy_marshal_meta : Meta → Str
toy_marshal_meta m =
    pack m.algo
      (pack m.nonce_b64 (pack m.created_at (m.since ∷ m.next_since ∷ m.encryption_key_id)))

abbrev pub toy_unmarshal_meta : Str → Option Meta
toy_unmarshal_meta s =
    let (algo, s1) = unpack s in
    let (nonce, s2) = unpack s1 in
    let (created, s3) = unpack s2 in read_numbers algo nonce created s3

pub toy_meta : (m : Meta) → toy_unmarshal_meta (toy_marshal_meta m) ≡ some m
toy_meta m = rw (unpack-pack, unpack-pack, unpack-pack) refl

abbrev pub toy_unmarshal_info : Str → Option VersionInfo
toy_unmarshal_info (version ∷ since ∷ s) =
    some (record { version = version; since = since; updated_at = s })
toy_unmarshal_info s = none

abbrev pub toy_codec : Library
toy_codec = record {
  aead = toy_aead;
  encode_base64 = λ s. s;
  decode_base64 = λ s. some s;
  decode-encode_base64 = λ s. refl;
  key_id = λ s. s;
  marshal_meta = toy_marshal_meta;
  unmarshal_meta = toy_unmarshal_meta;
  unmarshal-marshal_meta = toy_meta;
  marshal_info = λ i. i.version ∷ i.since ∷ i.updated_at;
  unmarshal_info = toy_unmarshal_info;
  unmarshal-marshal_info = λ i. refl;
}

abbrev pub In : ℕ → List ℕ → Type 0
In y [] = ⊥
In y (z ∷ zs) = (z ≡ y) ⊎ In y zs

abbrev pub maximum : List ℕ → ℕ
maximum [] = 0
maximum (y ∷ ys) = if ltb (maximum ys) y then y else maximum ys

pub In-maximum : (y : ℕ) (ys : List ℕ) → In y ys → y ≤ maximum ys
In-maximum y [] h = absurd h
In-maximum y (z ∷ zs) (inl e) = ground arith
In-maximum y (z ∷ zs) (inr h) = ground (arith, In-maximum y zs h)

pub In-select : (since y : ℕ) (ys : List ℕ) → In y ys → since < y → In y (select (ltb since) ys)
In-select since y [] h l = absurd h
In-select since y (z ∷ zs) (inl e) l =
    let newer : ltb since z ≡ true = ground arith in rw newer (inl e)
In-select since y (z ∷ zs) (inr h) l = elim (Bool-cases (ltb since z)) [
  | inl e ↦ rw e (inr (In-select since y zs h l))
  | inr e ↦ rw e (In-select since y zs h l)
]

select_by_test :
    (y z : ℕ) (zs ws : List ℕ) (b : Bool)
    → (In y ws → In y zs)
    → In y (if b then z ∷ ws else ws)
    → (z ≡ y) ⊎ In y zs
select_by_test y z zs ws true rest (inl e) = inl e
select_by_test y z zs ws true rest (inr q) = inr (rest q)
select_by_test y z zs ws false rest q = inr (rest q)

pub select-In : (since y : ℕ) (ys : List ℕ) → In y (select (ltb since) ys) → In y ys
select-In since y [] h = h
select-In since y (z ∷ zs) h =
    select_by_test y z zs (select (ltb since) zs) (ltb since z) (select-In since y zs) h

In-append : (y : ℕ) (xs ys : List ℕ) → In y xs ⊎ In y ys → In y (xs ++ ys)
In-append y [] ys (inl h) = absurd h
In-append y [] ys (inr h) = h
In-append y (x ∷ xs) ys (inl (inl e)) = inl e
In-append y (x ∷ xs) ys (inl (inr h)) = inr (In-append y xs ys (inl h))
In-append y (x ∷ xs) ys (inr h) = inr (In-append y xs ys (inr h))

append-In : (y : ℕ) (xs ys : List ℕ) → In y (xs ++ ys) → In y xs ⊎ In y ys
append-In y [] ys h = inr h
append-In y (x ∷ xs) ys (inl e) = inl (inl e)
append-In y (x ∷ xs) ys (inr h) = elim (append-In y xs ys h) [ inl q ↦ inl (inr q) | inr q ↦ inr q ]

abbrev pub toy_backup : List ℕ → ℕ → Option (Str × ℕ)
toy_backup d since = some (select (ltb since) d, maximum d)

abbrev pub toy_load : List ℕ → Str → Option (List ℕ)
toy_load e dump = some (dump ++ e)

abbrev pub Numbered : List ℕ → ℕ → Type 0
Numbered d y = In y d × (0 < y)

pub dump-eq :
    (d : List ℕ) (since next : ℕ) (dump : Str)
    → toy_backup d since ≡ some (dump, next)
    → (select (ltb since) d ≡ dump) × (maximum d ≡ next)
dump-eq d since next dump e = (cc, cc)

pub toy_load-Numbered :
    (e e' : List ℕ) (dump : Str)
    → toy_load e dump ≡ some e'
    → (y : ℕ)
    → (Numbered e y → Numbered e' y)
      × (Numbered dump y → Numbered e' y)
      × (Numbered e' y → Numbered e y ⊎ Numbered dump y)
toy_load-Numbered e e' dump l y =
    let eq : dump ++ e ≡ e' = cc in
    rw (← eq) (
      λ h. (In-append y dump e (inr h.0), h.1),
      λ h. (In-append y dump e (inl h.0), h.1),
      λ h. elim (append-In y dump e h.0) [ inl q ↦ inr (q, h.1) | inr q ↦ inl (q, h.1) ],
    )

-- The entries are the positive numbers of a list.
abbrev pub toy_badger : Badger
toy_badger = record {
  Db = List ℕ;
  Entry = ℕ;
  version = λ y. y;
  max_version = maximum;
  Holds = Numbered;
  Dumped = Numbered;
  backup = toy_backup;
  load = toy_load;
  positive = λ d y h. h.1;
  version-le = λ d y h. In-maximum y d h.0;
  dumps = λ d since next dump e y h newer.
      let (eq, top) = dump-eq d since next dump e in
      ((rw (← eq) (In-select since y d h.0 newer), h.1), rw (← top) (In-maximum y d h.0));
  dumps_only = λ d since next dump e y h.
      (select-In since y d (rw ((dump-eq d since next dump e).0) h.0), h.1);
  next-le = λ d since next dump e. rw ((dump-eq d since next dump e).1) (omega arith);
  nothing_dumped = λ y h. h.0;
  loads = λ d since next dump e d'. (dump ++ d', refl);
  load-Holds = toy_load-Numbered;
}
