-- ===== src/Control/Edit/Key.antt =====
-- The key of a command (ktuctl-rs/src/commands.rs).
use ktuctl_rs.Prelude.{
  ℕ, zero, suc, ◌-◌, ◌≤◌, ◌≡◌, refl, sym, ap, ◌∙◌, [], ◌∷◌, ◌++◌, replicate, length, take, drop,
  All, arith,
}
use ktuctl_rs.Bytes.{Bytes, IsByte}
use ktuctl_rs.Outcome.{ok}
use ktuctl_rs.Control.XorKey.{
  format_xor_key, parse_xor_key, format_bytes, parse_xor_key-format_xor_key,
}
use ktuctl_rs.Control.Edit.{xor_key_of}

drop-replicate : (n k : ℕ) (b : ℕ) → drop n (replicate k b) ≡ replicate (k - n) b
drop-replicate zero k b = let e : k - 0 ≡ k = omega arith in rw e refl
drop-replicate (suc n) zero b = let e : 0 - suc n ≡ 0 = omega arith in rw e refl
drop-replicate (suc n) (suc k) b =
    let e : suc k - suc n ≡ k - n = omega arith in rw e (drop-replicate n k b)

take-drop : (n : ℕ) (bs : Bytes) → take n bs ++ drop n bs ≡ bs
take-drop zero bs = refl
take-drop (suc n) [] = refl
take-drop (suc n) (b ∷ bs) = ap (◌∷◌ b) (take-drop n bs)

xor_key_of_text :
    (hex key : Bytes) (n : ℕ)
    → 1 ≤ length hex
    → parse_xor_key hex (replicate 64 0) ≡ ok (key, n)
    → xor_key_of hex ≡ ok (key, n)
unfolding xor_key_of
xor_key_of_text [] key n h e = absurd (omega arith)
xor_key_of_text (b ∷ hex) key n h e = e

pub xor_key_of-format_xor_key :
    (key : Bytes) (n : ℕ)
    → All IsByte key
    → length key ≡ 64
    → n ≤ 64
    → drop n key ≡ replicate (64 - n) 0
    → xor_key_of (format_xor_key key n) ≡ ok (key, n)
xor_key_of-format_xor_key key zero bytes size small rest =
    unfold xor_key_of in
    unfold format_xor_key in unfold format_bytes in ap (λ k. ok (k, 0)) (sym rest)
xor_key_of-format_xor_key key (suc n) bytes size small rest =
    let (read, long) =
      parse_xor_key-format_xor_key key (replicate 64 0) (suc n) bytes (omega arith) (omega arith)
        small in
    let whole : take (suc n) key ++ drop (suc n) (replicate 64 0) ≡ key =
      ap (λ x. take (suc n) key ++ x) (drop-replicate (suc n) 64 0 ∙ sym rest)
      ∙ take-drop (suc n) key in
    xor_key_of_text _ key (suc n) (omega (arith, long)) (read ∙ ap (λ k. ok (k, suc n)) whole)
