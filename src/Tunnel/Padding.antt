-- ===== src/Tunnel/Padding.antt =====
-- Padding with `#`: `remove_padding` and the response of tuctl-server/src/main.rs, and
-- `build_padded_cmd` of tuctl-client/src/main.rs. The random byte is an argument.
use ktuctl_rs.Prelude.{
  ℕ, zero, suc, ◌+◌, ◌-◌, ◌%◌, ◌≤◌, ◌≡◌, ◌≢◌, ◌⊎◌, refl, sym, ap, ◌∙◌, [], ◌∷◌, ◌++◌, append-nil,
  ltb, leb, ◌==◌, ==-false, Bool-cases, inl, inr, if◌then◌else◌, length, replicate, length-append,
  length-replicate, arith,
}
use mathlib.Core.List.{reverse, reverse-append, reverse-reverse, reverse-cons}
use ktuctl_rs.Bytes.{Bytes}
use ktuctl_rs.Tunnel.Packet.{max_pt_size}

-- The loop of `remove_padding` on the bytes from the last to the first.
unfoldable pub pop_hashes : Bytes → Bytes
pop_hashes [] = []
pop_hashes (b ∷ bs) = if b == b'#' then pop_hashes bs else b ∷ bs

unfoldable pub remove_padding : Bytes → Bytes
unfolding pop_hashes
remove_padding pt = reverse (pop_hashes (reverse pt))

abbrev pub hashes : ℕ → Bytes
hashes n = replicate n b'#'

unfoldable pub build_padded_cmd : Bytes → ℕ → Bytes
build_padded_cmd script random =
    let pad_len = random % 256 in
    let pad_len' =
      if ltb (max_pt_size - 1) (length script + pad_len)
      then max_pt_size - 1 - length script
      else pad_len in
    script ++ hashes pad_len'

-- The `resp` of `process_packet`; the push and pop behind the padding leave it as it is.
unfoldable pub pad_response : Bytes → ℕ → Bytes
pad_response resp random =
    if ltb (length resp) (max_pt_size - 2)
    then (let padding_len = random % 256 in
        let padding_len' =
          if leb max_pt_size (length resp + padding_len)
          then max_pt_size - length resp - 1
          else padding_len in
        resp ++ hashes padding_len')
    else resp

snoc_hash : (n : ℕ) → hashes (suc n) ≡ hashes n ++ hashes 1
snoc_hash zero = refl
snoc_hash (suc n) = ap (◌∷◌ b'#') (snoc_hash n)

reverse-hashes : (n : ℕ) → reverse (hashes n) ≡ hashes n
reverse-hashes zero = refl
reverse-hashes (suc n) =
    reverse-cons b'#' (hashes n)
    ∙ ap (λ bs. bs ++ (b'#' ∷ [])) (reverse-hashes n)
    ∙ sym (snoc_hash n)

pop_hashes-append : (n : ℕ) (bs : Bytes) → pop_hashes (hashes n ++ bs) ≡ pop_hashes bs
unfolding pop_hashes
pop_hashes-append zero bs = refl
pop_hashes-append (suc n) bs = pop_hashes-append n bs

-- Padding is taken off, however much there is.
remove_padding-hashes : (bs : Bytes) (n : ℕ) → remove_padding (bs ++ hashes n) ≡ remove_padding bs
unfolding remove_padding
remove_padding-hashes bs n =
    ap (λ x. reverse (pop_hashes x))
      (reverse-append bs (hashes n) ∙ ap (λ x. x ++ reverse bs) (reverse-hashes n))
    ∙ ap reverse (pop_hashes-append n (reverse bs))

remove_padding_last :
    (bs : Bytes) (last : ℕ) → last ≢ b'#' → remove_padding (bs ++ (last ∷ [])) ≡ bs ++ (last ∷ [])
unfolding remove_padding pop_hashes
remove_padding_last bs last h =
    ap (λ x. reverse (pop_hashes x)) (reverse-append bs (last ∷ []))
    ∙ rw (==-false last b'#' h)
        (ap reverse (sym (reverse-append bs (last ∷ []))) ∙ reverse-reverse (bs ++ (last ∷ [])))

build_padded_cmd_shape :
    (cmd : Bytes) (random : ℕ)
    → (n : ℕ) × (build_padded_cmd cmd random ≡ cmd ++ hashes n)
      × (length cmd ≤ 4095 → length cmd + n ≤ 4095)
      × (4095 ≤ length cmd → n ≡ 0)
unfolding build_padded_cmd
build_padded_cmd_shape cmd random = (
  (if ltb (max_pt_size - 1) (length cmd + random % 256)
      then max_pt_size - 1 - length cmd
      else random % 256),
  refl,
  ground arith,
  ground arith,
)

pad_response_shape :
    (resp : Bytes) (random : ℕ)
    → length resp ≤ 4096
    → (n : ℕ) × (pad_response resp random ≡ resp ++ hashes n) × (length resp + n ≤ 4096)
unfolding pad_response
pad_response_shape resp random h = elim (Bool-cases (ltb (length resp) (max_pt_size - 2))) [
  | inl room ↦ (
    (if leb max_pt_size (length resp + random % 256)
        then max_pt_size - length resp - 1
        else random % 256),
    rw room,
    ground arith,
  )
  | inr full ↦ (0, rw full (sym (append-nil resp)), omega arith)
]

-- The other end removes the padding of a command whole, whatever the random byte is: of a script
-- whose last byte is not `#` it gets the script, byte for byte. The command has at most 4095 bytes, or
-- it is the script as it stands.
pub remove_padding-build_padded_cmd :
    (script : Bytes) (last random : ℕ)
    → last ≢ b'#'
    → (remove_padding (build_padded_cmd (script ++ (last ∷ [])) random) ≡ script ++ (last ∷ []))
      × ((length (build_padded_cmd (script ++ (last ∷ [])) random) ≤ 4095)
          ⊎ (build_padded_cmd (script ++ (last ∷ [])) random ≡ script ++ (last ∷ [])))
remove_padding-build_padded_cmd script last random h =
    let cmd = script ++ (last ∷ []) in
    let (n, e, fits, full) = build_padded_cmd_shape cmd random in
    (
      rw e (remove_padding-hashes cmd n ∙ remove_padding_last script last h),
      elim (Bool-cases (leb (length cmd) 4095)) [
        | inl short ↦ inl (rw (e, length-append, length-replicate) (fits (ground (arith, short))))
        | inr long ↦ inr (rw (e, full (ground (arith, long))) (append-nil cmd))
      ],
    )

-- The same for the server's response, which is at most 4096 bytes long if the child's output was.
pub remove_padding-pad_response :
    (resp : Bytes) (random : ℕ)
    → length resp ≤ 4096
    → (remove_padding (pad_response resp random) ≡ remove_padding resp)
      × (length (pad_response resp random) ≤ 4096)
      × (length resp ≤ length (pad_response resp random))
remove_padding-pad_response resp random h =
    let (n, e, fits) = pad_response_shape resp random h in
    (
      rw e (remove_padding-hashes resp n),
      rw (e, length-append, length-replicate) fits,
      rw (e, length-append, length-replicate) (omega arith),
    )
