-- ===== src/Control/Ends/Arguments.antt =====
-- What the commands make of their arguments does not use fuel (ktuctl-rs/src/commands.rs,
-- ktuctl-rs/src/helper.rs).
use ktuctl_rs.Prelude.{
  ℕ, ◌≢◌, List, [], ◌∷◌, Option, none, some, Bool, true, false, ◌=b◌, ◌||◌, ◌==◌, ◌%◌, ◌/◌, not,
  ltb, if◌then◌else◌, arith, length,
}
use ktuctl_rs.Bytes.{Bytes}
use ktuctl_rs.Address.{IpAddr}
use ktuctl_rs.Number.{parse_unsigned, u32_max}
use ktuctl_rs.Outcome.{Outcome, ok, err, stuck, Error, >>=-stuck}
use ktuctl_rs.Control.UidMap.{UidMap, get_uid}
use ktuctl_rs.Control.Names.{GlobalFlags, resolve_uid, resolve_ip, find}
use ktuctl_rs.Control.XorKey.{hex_digit, parse_chunks, parse_xor_key}
use ktuctl_rs.Control.Options.{
  Word, Options, parse_options, set_option, number, known, word_of, parse_max_age,
}
use ktuctl_rs.Control.Options.Words
use ktuctl_rs.Control.Edit.{xor_key_of}

abbrev pub Ends : {A : Type 0} → Outcome A → Type 0
Ends o = o ≢ stuck

module _ {A : Type 0} where
  ok-Ends : (a : A) → Ends (ok a)
  ok-Ends a e = cc

  err-Ends : (x : Error) → Ends {A = A} (err x)
  err-Ends x e = cc

  if_Ends : (b : Bool) (x y : Outcome A) → Ends x → Ends y → Ends (if b then x else y)
  if_Ends true x y hx hy = hx
  if_Ends false x y hx hy = hy

  Bool-Ends :
      (b : Bool) (x y : Outcome A) → Ends x → Ends y → Ends (elim b [ false ↦ x | true ↦ y ])
  Bool-Ends false x y hx hy = hx
  Bool-Ends true x y hx hy = hy

  Option-Ends :
      {B : Type 0} (o : Option B) (x : Outcome A) (f : B → Outcome A)
      → Ends x
      → ((b : B) → Ends (f b))
      → Ends (elim o [ none ↦ x | some b ↦ f b ])
  Option-Ends none x f hx hf = hx
  Option-Ends (some b) x f hx hf = hf b

number-Ends : (n : Option ℕ) → Ends (number n)
number-Ends none = err-Ends _
number-Ends (some n) = ok-Ends n

resolve_uid-Ends : (m : UidMap) (s : Bytes) → Ends (resolve_uid m s)
unfolding resolve_uid
resolve_uid-Ends m s =
    Option-Ends (get_uid s m) _ _ (Option-Ends (parse_unsigned 255 s) _ _ (err-Ends _) ok-Ends)
      ok-Ends

hex_digit-Ends : (b : ℕ) → Ends (hex_digit b)
unfolding hex_digit
hex_digit-Ends b e = ground (arith, e)

parse_chunks-Ends : (bs : Bytes) → Ends (parse_chunks bs)
unfolding parse_chunks
parse_chunks-Ends [] = ok-Ends _
parse_chunks-Ends (a ∷ []) = ok-Ends _
parse_chunks-Ends (a ∷ b ∷ bs) = >>=-stuck (hex_digit a) _ (hex_digit-Ends a) (λ hi.
    >>=-stuck (hex_digit b) _ (hex_digit-Ends b)
      (λ lo. >>=-stuck (parse_chunks bs) _ (parse_chunks-Ends bs) (λ rest. ok-Ends _)))

parse_xor_key-Ends : (hex key : Bytes) → Ends (parse_xor_key hex key)
unfolding parse_xor_key
parse_xor_key-Ends hex key =
    if_Ends (length hex == 0 || not (length hex % 2 == 0)) _ _ (err-Ends _) (
      if_Ends (ltb 64 (length hex / 2)) _ _ (err-Ends _)
        (>>=-stuck (parse_chunks hex) _ (parse_chunks-Ends hex) (λ bytes. ok-Ends _)))

pub xor_key_of-Ends : (hex : Bytes) → Ends (xor_key_of hex)
unfolding xor_key_of
xor_key_of-Ends [] = ok-Ends _
xor_key_of-Ends (b ∷ hex) = parse_xor_key-Ends (b ∷ hex) _

pub resolve_ip-Ends :
    (flags : GlobalFlags) (ips : Option (List IpAddr)) → Ends (resolve_ip flags ips)
unfolding resolve_ip
resolve_ip-Ends flags none = err-Ends _
resolve_ip-Ends flags (some []) = err-Ends _
resolve_ip-Ends flags (some (ip ∷ ips)) =
    Option-Ends flags.ip_family _ _ (ok-Ends _)
      (λ family. Option-Ends (find family (ip ∷ ips)) _ _ (err-Ends _) (λ chosen. ok-Ends _))

set_option-Ends : (m : UidMap) (w : Word) (v : Bytes) (o : Options) → Ends (set_option m w v o)
unfolding set_option
set_option-Ends m Word.address v o = ok-Ends _
set_option-Ends m Word.port v o = >>=-stuck (number _) _ (number-Ends _) (λ n. ok-Ends _)
set_option-Ends m Word.icmp_id v o = >>=-stuck (number _) _ (number-Ends _) (λ n. ok-Ends _)
set_option-Ends m Word.uid v o =
    >>=-stuck (resolve_uid m v) _ (resolve_uid-Ends m v) (λ u. ok-Ends _)
set_option-Ends m Word.comment v o = ok-Ends _
set_option-Ends m Word.xor v o = ok-Ends _

pub parse_options-Ends :
    (m : UidMap) (knows : Word → Bool) (args : List Bytes) (o : Options)
    → Ends (parse_options m knows args o)
unfolding parse_options
parse_options-Ends m knows [] o = ok-Ends _
parse_options-Ends m knows (s ∷ []) o =
    Option-Ends (known knows (word_of s)) _ _ (ok-Ends _) (λ w. err-Ends _)
parse_options-Ends m knows (s ∷ v ∷ rest) o =
    Option-Ends (known knows (word_of s)) _ _ (parse_options-Ends m knows (v ∷ rest) o) (λ w.
      >>=-stuck (set_option m w v o) _ (set_option-Ends m w v o)
        (λ o'. parse_options-Ends m knows rest o'))

pub parse_max_age-Ends : (args : List Bytes) (age : ℕ) → Ends (parse_max_age args age)
unfolding parse_max_age
parse_max_age-Ends [] age = ok-Ends _
parse_max_age-Ends (s ∷ []) age = ok-Ends _
parse_max_age-Ends (s ∷ v ∷ rest) age =
    Bool-Ends (s =b Words.max_age) _ _ (parse_max_age-Ends (v ∷ rest) age) (
      >>=-stuck (number (parse_unsigned u32_max v)) _ (number-Ends _)
        (λ n. parse_max_age-Ends rest n))
