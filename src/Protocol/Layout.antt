-- ===== src/Protocol/Layout.antt =====
-- What `IntoBytes` and `FromBytes` give a `#[repr(C)]` struct of ktuctl-rs/src/config.rs: its
-- memory image and the read of one. Layouts of integers and byte arrays are put together in the
-- order of the fields; the structs have their padding as fields of their own.
use ktuctl_rs.Prelude.{
  ℕ, ◌+◌, ◌^◌, ◌≤◌, ◌<◌, ◌≡◌, refl, sym, ap, ◌∙◌, Option, none, some, ◌++◌, append_assoc, arith,
  ltb, if◌then◌else◌, length, length-append, length-take, length-drop, take, drop, take-append,
  drop-append, All, All-append, All-take, All-drop, take-add,
}
use ktuctl_rs.Bytes.{
  Endian, Bytes, IsByte, to_ne_bytes, from_ne_bytes, length-to_ne_bytes, from_ne_bytes-to_ne_bytes,
  to_ne_bytes-IsByte, from_ne_bytes-lt, to_ne_bytes-from_ne_bytes,
}

pub record Layout (T : Type 0) : Type 1 where
  pub size : ℕ
  pub as_bytes : T → Bytes
  pub read : Bytes → T
  pub IsValid : T → Type 0
  pub length-as_bytes : (t : T) → IsValid t → length (as_bytes t) ≡ size
  pub as_bytes-IsByte : (t : T) → IsValid t → All IsByte (as_bytes t)
  pub read-as_bytes : (t : T) (rest : Bytes) → IsValid t → read (as_bytes t ++ rest) ≡ t
  pub read-IsValid : (bs : Bytes) → size ≤ length bs → All IsByte bs → IsValid (read bs)
  pub as_bytes-read :
      (bs : Bytes) → size ≤ length bs → All IsByte bs → as_bytes (read bs) ≡ take size bs

-- `T::read_from_prefix(payload)`.
abbrev pub read_from_prefix : {T : Type 0} → Layout T → Bytes → Option T
read_from_prefix l bs = if ltb (length bs) l.size then none else some (l.read bs)

pub length-take-eq : (n : ℕ) (bs : Bytes) → n ≤ length bs → length (take n bs) ≡ n
length-take-eq n bs h = omega (arith, length-take n bs)

-- An unsigned integer of `w` bytes in the byte order of the machine.
abbrev pub uint : Endian → ℕ → Layout ℕ
uint en w = record {
  size = w;
  as_bytes = λ v. to_ne_bytes en w v;
  read = λ bs. from_ne_bytes en (take w bs);
  IsValid = λ v. v < 256 ^ w;
  length-as_bytes = λ v h. length-to_ne_bytes en w v;
  as_bytes-IsByte = λ v h. to_ne_bytes-IsByte en w v;
  read-as_bytes = λ v rest h.
      ap (from_ne_bytes en) (take-append w _ rest (sym (length-to_ne_bytes en w v)))
      ∙ from_ne_bytes-to_ne_bytes en w v h;
  read-IsValid =
      λ bs h b. from_ne_bytes-lt en w (take w bs) (length-take-eq w bs h) (All-take IsByte w bs b);
  as_bytes-read = λ bs h b.
      to_ne_bytes-from_ne_bytes en w (take w bs) (length-take-eq w bs h) (All-take IsByte w bs b);
}

-- `[u8; n]`.
abbrev pub array : ℕ → Layout Bytes
array n = record {
  size = n;
  as_bytes = λ bs. bs;
  read = λ bs. take n bs;
  IsValid = λ bs. (length bs ≡ n) × All IsByte bs;
  length-as_bytes = λ bs h. h.0;
  as_bytes-IsByte = λ bs h. h.1;
  read-as_bytes = λ bs rest h. take-append n bs rest (sym h.0);
  read-IsValid = λ bs h b. (length-take-eq n bs h, All-take IsByte n bs b);
  as_bytes-read = λ bs h b. refl;
}

module _ {A B : Type 0} (l : Layout A) (r : Layout B) where
  pub pair_read :
      (a : A) (b : B) (rest : Bytes)
      → l.IsValid a
      → r.IsValid b
      → drop l.size ((l.as_bytes a ++ r.as_bytes b) ++ rest) ≡ r.as_bytes b ++ rest
  pair_read a b rest ha hb =
      ap (drop l.size) (append_assoc (l.as_bytes a) (r.as_bytes b) rest)
      ∙ drop-append l.size _ _ (sym (l.length-as_bytes a ha))

  -- Two fields, one behind the other.
  infixr 60 ◌⨟◌
  abbrev pub ◌⨟◌ : Layout (A × B)
  ◌⨟◌ = record {
    size = l.size + r.size;
    as_bytes = λ p. l.as_bytes p.0 ++ r.as_bytes p.1;
    read = λ bs. (l.read bs, r.read (drop l.size bs));
    IsValid = λ p. l.IsValid p.0 × r.IsValid p.1;
    length-as_bytes = λ p h. omega (
      arith,
      length-append (l.as_bytes p.0) (r.as_bytes p.1),
      l.length-as_bytes p.0 h.0,
      r.length-as_bytes p.1 h.1,
    );
    as_bytes-IsByte =
        λ p h. All-append IsByte _ _ (l.as_bytes-IsByte p.0 h.0) (r.as_bytes-IsByte p.1 h.1);
    read-as_bytes = λ p rest h i. (
      (ap l.read (append_assoc (l.as_bytes p.0) (r.as_bytes p.1) rest) ∙ l.read-as_bytes p.0 _ h.0)
          i,
      (ap r.read (pair_read p.0 p.1 rest h.0 h.1) ∙ r.read-as_bytes p.1 rest h.1) i,
    );
    read-IsValid = λ bs h b. (
      l.read-IsValid bs (omega arith) b,
      r.read-IsValid (drop l.size bs) (omega (arith, length-drop l.size bs))
          (All-drop IsByte l.size bs b),
    );
    as_bytes-read = λ bs h b.
        rw
          (
            l.as_bytes-read bs (omega arith) b,
            r.as_bytes-read (drop l.size bs) (omega (arith, length-drop l.size bs))
                (All-drop IsByte l.size bs b),
          )
          (sym (take-add l.size r.size bs));
  }

-- A struct through the tuple of its fields.
module _ {T A : Type 0} (fields : T → A) (build : A → T) where
  abbrev pub struct :
      ((t : T) → build (fields t) ≡ t) → ((a : A) → fields (build a) ≡ a) → Layout A → Layout T
  struct build-fields fields-build l = record {
    size = l.size;
    as_bytes = λ t. l.as_bytes (fields t);
    read = λ bs. build (l.read bs);
    IsValid = λ t. l.IsValid (fields t);
    length-as_bytes = λ t h. l.length-as_bytes (fields t) h;
    as_bytes-IsByte = λ t h. l.as_bytes-IsByte (fields t) h;
    read-as_bytes = λ t rest h. ap build (l.read-as_bytes (fields t) rest h) ∙ build-fields t;
    read-IsValid = λ bs h b. rw (fields-build (l.read bs)) (l.read-IsValid bs h b);
    as_bytes-read = λ bs h b. ap l.as_bytes (fields-build (l.read bs)) ∙ l.as_bytes-read bs h b;
  }
