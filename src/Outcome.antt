-- ===== src/Outcome.antt =====
-- What a call of the program comes to: `anyhow::Result`, with a panic, a wait without an end and an
-- exhausted fuel beside it. The messages of `anyhow!`, `bail!` and `context` are constructors.
use ktuctl_rs.Prelude.{ℕ, ◌≡◌, refl}
use ktuctl_rs.Bytes.{Bytes}

pub data Error : Type 0 where
  -- NetlinkSocket
  socket_failed bind_auto_failed send_to_failed recv_from_failed : Error
  -- the reply loops
  bad_nlmsghdr invalid_nlmsg_len truncated_message bad_genlhdr : Error
  short_nlmsg_error family_not_found no_response struct_too_small struct_parse_failed : Error
  -- "netlink error", with the errno
  netlink_error : ℕ → Error
  -- the arguments of the commands
  unknown_user xor_key_not_hex_string xor_key_too_long invalid_hex : Error
  lookup_failed could_not_resolve no_suitable_address : Error
  missing_value invalid_number incomplete wrong_mode : Error
  -- the script
  script_usage open_failed read_failed parse_error : Error
  in_line : ℕ → ℕ → Bytes → Error → Error
  -- an error in a text around it
  context : Error → Error
  -- `bail!` with a text of its own
  bail : Bytes → Error

pub data Outcome {ℓ} (A : Type ℓ) : Type ℓ where
  ok : A → Outcome A
  err : Error → Outcome A
  -- a slice index out of range
  panic : Outcome A
  -- `recv_from` with nothing more to come
  blocked : Outcome A
  -- the fuel of the model ran out
  stuck : Outcome A

infixl 5 ◌>>=◌ ◌>>◌
abbrev pub ◌>>=◌ {ℓ κ} : {A : Type ℓ} {B : Type κ} → Outcome A → (A → Outcome B) → Outcome B
ok a >>= f = f a
err e >>= f = err e
panic >>= f = panic
blocked >>= f = blocked
stuck >>= f = stuck

abbrev pub ◌>>◌ {ℓ} : {B : Type ℓ} → Outcome (Unit {0}) → Outcome B → Outcome B
m >> k = m >>= λ _. k

-- A bind that runs out of fuel does so in one of its parts.
pub >>=-stuck {ℓ κ} :
    {A : Type ℓ} {B : Type κ} (m : Outcome A) (f : A → Outcome B)
    → ¬ (m ≡ stuck)
    → ((a : A) → ¬ (f a ≡ stuck))
    → ¬ ((m >>= f) ≡ stuck)
>>=-stuck (ok a) f hm hf e = hf a e
>>=-stuck (err x) f hm hf e = cc
>>=-stuck panic f hm hf e = cc
>>=-stuck blocked f hm hf e = cc
>>=-stuck stuck f hm hf e = hm refl
