-- ===== src/Protocol/RoundTrip.antt =====
-- The structs of ktuctl-rs/src/config.rs that travel in attributes, and their memory images.
use ktuctl_rs.Prelude.{
  ℕ, ◌≤◌, ◌≡◌, refl, sym, ap, ◌∙◌, arith, ltb-false, length, length-append, take, ◌++◌, All, some,
}
use ktuctl_rs.Bytes.{Endian, Bytes, IsByte}
use ktuctl_rs.Protocol.Layout.{Layout, read_from_prefix}
use ktuctl_rs.Protocol.Structs.{
  tutu_config_layout, tutu_stats_layout, tutu_egress_layout, tutu_ingress_layout,
  tutu_session_layout, tutu_user_info_layout,
}
use ktuctl_rs.Protocol.Image.{Kind, Struct, c_size, Fits, c_image}

module _ (en : Endian) where
  abbrev pub layout_of : (k : Kind) → Layout (Struct k)
  layout_of Kind.config = tutu_config_layout en
  layout_of Kind.stats = tutu_stats_layout en
  layout_of Kind.egress = tutu_egress_layout en
  layout_of Kind.ingress = tutu_ingress_layout en
  layout_of Kind.session = tutu_session_layout en
  layout_of Kind.user_info = tutu_user_info_layout en

  size-c_size : (k : Kind) → (layout_of k).size ≡ c_size k
  size-c_size Kind.config = refl
  size-c_size Kind.stats = refl
  size-c_size Kind.egress = refl
  size-c_size Kind.ingress = refl
  size-c_size Kind.session = refl
  size-c_size Kind.user_info = refl

  -- A layout allows what fits the fields, and lays them out as C does.
  as_bytes-c_image :
      (k : Kind) (s : Struct k)
      → (Fits k s → (layout_of k).IsValid s) × ((layout_of k).as_bytes s ≡ c_image en k s)
  as_bytes-c_image Kind.config s = (λ h. h, refl)
  as_bytes-c_image Kind.stats s = (λ h. h, refl)
  as_bytes-c_image Kind.egress s = (λ h. h, refl)
  as_bytes-c_image Kind.ingress s = (λ h. h, refl)
  as_bytes-c_image Kind.session s = (λ h. h, refl)
  as_bytes-c_image Kind.user_info s = (λ h. h, refl)

  -- A value of any of the six structs whose fields fit their types has an image of exactly the
  -- size of the C struct: the bytes of its fields in the order in which config.rs declares them. It is
  -- read back from it, whatever follows; and the image of what is read from any bytes that are long
  -- enough is those bytes, cut to the size.
  pub read_from_prefix-as_bytes :
      (k : Kind) (s : Struct k) (rest bs : Bytes)
      → Fits k s
      → c_size k ≤ length bs
      → All IsByte bs
      → ((layout_of k).as_bytes s ≡ c_image en k s)
        × (length (c_image en k s) ≡ c_size k)
        × (read_from_prefix (layout_of k) (c_image en k s ++ rest) ≡ some s)
        × ((layout_of k).as_bytes ((layout_of k).read bs) ≡ take (c_size k) bs)
  read_from_prefix-as_bytes k s rest bs fits long bytes = (
    image,
    rw image at sized,
    rw (sym image) (
        rw
          (ltb-false (length (l.as_bytes s ++ rest)) l.size
            (omega (arith, length-append (l.as_bytes s) rest, sized, size-c_size k)))
          (ap some (l.read-as_bytes s rest valid))),
    l.as_bytes-read bs (omega (arith, size-c_size k)) bytes
        ∙ ap (λ (n : ℕ). take n bs) (size-c_size k),
  )
    where
      l : Layout (Struct k)
      l = layout_of k

      image : l.as_bytes s ≡ c_image en k s
      image = (as_bytes-c_image k s).1

      valid : l.IsValid s
      valid = (as_bytes-c_image k s).0 fits

      sized : length (l.as_bytes s) ≡ c_size k
      sized = l.length-as_bytes s valid ∙ size-c_size k
