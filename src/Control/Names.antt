-- ===== src/Control/Names.antt =====
-- `resolve_uid`, `resolve_hostname` and `resolve_ip` of ktuctl-rs/src/helper.rs. The two global
-- variables are arguments: the map of users, and the flags that `main` sets.
use ktuctl_rs.Prelude.{
  ℕ, ◌≤◌, ◌≡◌, refl, ap, List, [], ◌∷◌, ◌++◌, Option, none, some, Bool, true, false, if◌then◌else◌,
  replicate, ◌⊎◌, Bool-cases, Option-cases, subst, inl, inr, sym,
}
use ktuctl_rs.Bytes.{Bytes}
use ktuctl_rs.Address.{IpAddr, v4, v6}
use ktuctl_rs.Number.{parse_unsigned, decimal, u8_max, parse_unsigned-decimal}
use ktuctl_rs.Outcome.{Outcome, ok, err, Error}
use ktuctl_rs.Protocol.Structs.{In6Addr}
use ktuctl_rs.Control.UidMap.{UidMap, get_uid, get_host}
use ktuctl_rs.Control.UidMap.Lookup.{Unique, get_host-get_uid, get_uid-found}

pub data IpFamily : Type 0 where
  ip4 ip6 : IpFamily

pub record GlobalFlags : Type 0 where
  pub numeric : Bool
  pub debug : Bool
  pub ip_family : Option IpFamily

unfoldable pub resolve_uid : UidMap → Bytes → Outcome ℕ
resolve_uid m s = elim (get_uid s m) [
  | some uid ↦ ok uid
  | none ↦ elim (parse_unsigned u8_max s) [ some uid ↦ ok uid | none ↦ err Error.unknown_user ]
]

-- "uid ", "UID: ", "user ", "User: "
abbrev pub uid_word : Bool → Bytes
uid_word true = b'u' ∷ b'i' ∷ b'd' ∷ b' ' ∷ []
uid_word false = b'U' ∷ b'I' ∷ b'D' ∷ b':' ∷ b' ' ∷ []

abbrev pub user_word : Bool → Bytes
user_word true = b'u' ∷ b's' ∷ b'e' ∷ b'r' ∷ b' ' ∷ []
user_word false = b'U' ∷ b's' ∷ b'e' ∷ b'r' ∷ b':' ∷ b' ' ∷ []

unfoldable pub resolve_hostname : GlobalFlags → UidMap → ℕ → Bool → Bytes
resolve_hostname flags m uid is_dump =
    if flags.numeric then uid_word is_dump ++ decimal uid else elim (get_host uid m) [
      | some name ↦ user_word is_dump ++ name
      | none ↦ uid_word is_dump ++ decimal uid
    ]

-- The addresses that the resolver found, `none` if it failed. An IPv4 address is mapped into IPv6.
abbrev pub octets : IpAddr → Bytes
octets (v4 a) = replicate 10 0 ++ (0xff ∷ 0xff ∷ a)
octets (v6 a) = a

abbrev pub IsFamily : IpFamily → IpAddr → Type 0
IsFamily IpFamily.ip4 (v4 a) = Unit {0}
IsFamily IpFamily.ip6 (v6 a) = Unit {0}
IsFamily _ _ = ⊥

abbrev of_family : IpFamily → IpAddr → Bool
of_family IpFamily.ip4 (v4 a) = true
of_family IpFamily.ip6 (v6 a) = true
of_family _ _ = false

unfoldable pub find : IpFamily → List IpAddr → Option IpAddr
find family [] = none
find family (ip ∷ ips) = if of_family family ip then some ip else find family ips

unfoldable pub resolve_ip : GlobalFlags → Option (List IpAddr) → Outcome In6Addr
unfolding find
resolve_ip flags none = err Error.lookup_failed
resolve_ip flags (some []) = err Error.could_not_resolve
resolve_ip flags (some (ip ∷ ips)) = elim flags.ip_family [
  | none ↦ ok (record { octets = octets ip })
  | some family ↦ elim (find family (ip ∷ ips)) [
    | none ↦ err Error.no_suitable_address
    | some chosen ↦ ok (record { octets = octets chosen })
  ]
]

resolve_uid_number :
    (m : UidMap) (uid : ℕ)
    → get_uid (decimal uid) m ≡ none
    → uid ≤ 255
    → resolve_uid m (decimal uid) ≡ ok uid
unfolding resolve_uid
resolve_uid_number m uid digits small =
    rw (digits, resolve_uid) (rw (parse_unsigned-decimal u8_max uid small) refl)

resolve_uid_name :
    (m : UidMap) (uid : ℕ) (name : Bytes)
    → Unique m
    → ((u v : ℕ) (x : Bytes) → get_host u m ≡ some x → get_host v m ≡ some x → u ≡ v)
    → get_host uid m ≡ some name
    → resolve_uid m name ≡ ok uid
unfolding resolve_uid
resolve_uid_name m uid name unique distinct h = elim (Option-cases (get_uid name m)) [
  | inl missing ↦ absurd (get_uid-found name uid m h missing)
  | inr (u, found) ↦
      rw (found, resolve_uid)
        (ap ok (distinct u uid name (get_host-get_uid name u m unique found) h))
]

-- A user that is dumped by name or number is found again in a script, if the map has one entry for
-- each user, no two users of one name, and no host that is named by the user's own digits.
pub resolve_uid-resolve_hostname :
    (flags : GlobalFlags) (m : UidMap) (uid : ℕ)
    → Unique m
    → ((u v : ℕ) (name : Bytes) → get_host u m ≡ some name → get_host v m ≡ some name → u ≡ v)
    → get_uid (decimal uid) m ≡ none
    → uid ≤ 255
    → (value : Bytes) × ((resolve_hostname flags m uid true ≡ user_word true ++ value)
        ⊎ (resolve_hostname flags m uid true ≡ uid_word true ++ value))
      × (resolve_uid m value ≡ ok uid)
unfolding resolve_hostname
resolve_uid-resolve_hostname flags m uid unique distinct digits small =
    elim (Bool-cases flags.numeric) [
      | inl numeric ↦ (decimal uid, inr (rw numeric refl), resolve_uid_number m uid digits small)
      | inr named ↦ elim (Option-cases (get_host uid m)) [
        | inl missing ↦
            (decimal uid, inr (rw (named, missing) refl), resolve_uid_number m uid digits small)
        | inr (name, h) ↦
            (name, inl (rw (named, h) refl), resolve_uid_name m uid name unique distinct h)
      ]
    ]

abbrev pub Among : IpAddr → List IpAddr → Type 0
Among ip [] = ⊥
Among ip (j ∷ ips) = (ip ≡ j) ⊎ Among ip ips

-- The 16 bytes of an address: `::ffff:0:0/96` and an IPv4 address, or an IPv6 address as it is.
abbrev pub IsMapped : Bytes → IpAddr → Type 0
IsMapped bytes (v4 a) = bytes ≡ 0 ∷ 0 ∷ 0 ∷ 0 ∷ 0 ∷ 0 ∷ 0 ∷ 0 ∷ 0 ∷ 0 ∷ 0xff ∷ 0xff ∷ a
IsMapped bytes (v6 a) = bytes ≡ a

octets-IsMapped : (ip : IpAddr) (bytes : Bytes) → octets ip ≡ bytes → IsMapped bytes ip
octets-IsMapped (v4 a) bytes e = sym e
octets-IsMapped (v6 a) bytes e = sym e

abbrev pub Suits : Option IpFamily → IpAddr → Type 0
Suits none ip = Unit {0}
Suits (some family) ip = IsFamily family ip

of_family_lem : (family : IpFamily) (ip : IpAddr) → of_family family ip ≡ true → IsFamily family ip
of_family_lem IpFamily.ip4 (v4 a) h = tt
of_family_lem IpFamily.ip4 (v6 a) h = cc
of_family_lem IpFamily.ip6 (v4 a) h = cc
of_family_lem IpFamily.ip6 (v6 a) h = tt

find-IsFamily :
    (family : IpFamily) (ips : List IpAddr) (ip : IpAddr)
    → find family ips ≡ some ip
    → Among ip ips × IsFamily family ip
unfolding find
find-IsFamily family [] ip e = cc
find-IsFamily family (j ∷ ips) ip e = elim (Bool-cases (of_family family j)) [
  | inl fits ↦
      let found : some j ≡ some ip = rw fits at e in
      let same : j ≡ ip = cc in
      subst (λ x. Among x (j ∷ ips) × IsFamily family x) same
        (inl refl, of_family_lem family j fits)
  | inr other ↦
      let (member, fits) = find-IsFamily family ips ip (rw other at e) in (inr member, fits)
]

-- Where the flags ask for a family, the address that `resolve_ip` returns is of that family, and one
-- of those that the resolver found; where they do not, it is one of those as well, of either family.
-- An IPv4 address is returned behind ten bytes 0 and two bytes 255, an IPv6 address as it is.
pub resolve_ip-Suits :
    (flags : GlobalFlags) (ips : List IpAddr) (a : In6Addr)
    → resolve_ip flags (some ips) ≡ ok a
    → (ip : IpAddr) × Among ip ips × Suits flags.ip_family ip × IsMapped a.octets ip
unfolding resolve_ip
resolve_ip-Suits flags [] a e = cc
resolve_ip-Suits flags (ip ∷ ips) a e = elim (Option-cases flags.ip_family) [
  | inl unasked ↦
      let whole : ok (record { octets = octets ip }) ≡ ok a = rw (unasked, resolve_ip) at e in
      (ip, inl refl, rw unasked tt, octets-IsMapped ip a.octets cc)
  | inr (family, asked) ↦ elim (Option-cases (find family (ip ∷ ips))) [
    | inl missing ↦ cc (rw (missing, find) at (rw (asked, resolve_ip) at e))
    | inr (chosen, found) ↦
        let whole : ok (record { octets = octets chosen }) ≡ ok a =
          rw (found, find) at (rw (asked, resolve_ip) at e) in
        let (member, fits) = find-IsFamily family (ip ∷ ips) chosen found in
        (chosen, member, rw asked fits, octets-IsMapped chosen a.octets cc)
  ]
]
