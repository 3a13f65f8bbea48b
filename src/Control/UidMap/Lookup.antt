-- ===== src/Control/UidMap/Lookup.antt =====
-- What is found in a map that was loaded (ktuctl-rs/src/uid_map.rs).
use ktuctl_rs.Prelude.{
  ℕ, List, [], ◌∷◌, Option, none, some, true, false, ◌==◌, ◌=b◌, if◌then◌else◌, ◌≡◌, refl, ap, ◌∙◌,
  arith, map, Bool-cases, inl, inr, ==-refl, subst, =b-refl, eq_of_=b,
}
use ktuctl_rs.Bytes.{Bytes}
use ktuctl_rs.Control.UidMap.{
  Line, entry, blank, malformed, invalid_uid, parse_line, UidMap, insert, get_host, get_uid,
  add_line, load_lines, File, load,
}

abbrev or_else : Option Bytes → Option Bytes → Option Bytes
or_else (some a) o = some a
or_else none o = o

-- The last of the lines that give the user's name.
abbrev pub or_earlier : ℕ → Line → Option Bytes → Option Bytes
or_earlier uid (entry u name) none = if u == uid then some name else none
or_earlier uid l later = later

abbrev pub last_name : ℕ → List Bytes → Option Bytes
last_name uid [] = none
last_name uid (line ∷ lines) = or_earlier uid (parse_line line) (last_name uid lines)

get_host-insert :
    (uid u : ℕ) (name : Bytes) (m : UidMap)
    → get_host uid (insert u name m) ≡ (if u == uid then some name else get_host uid m)
unfolding get_host insert
get_host-insert uid u name [] = refl
get_host-insert uid u name ((v, h) ∷ m) = ground (arith, get_host-insert uid u name m)

eq_of_== : (m n : ℕ) → (m == n) ≡ true → m ≡ n
eq_of_== m n h = ground arith

-- A user has one entry.
abbrev pub Unique : UidMap → Type 0
Unique [] = Unit {0}
Unique ((u, h) ∷ m) = (get_host u m ≡ none) × Unique m

insert-Unique : (u : ℕ) (name : Bytes) (m : UidMap) → Unique m → Unique (insert u name m)
unfolding insert get_host
insert-Unique u name [] h = (refl, tt)
insert-Unique u name ((v, x) ∷ m) (h, hs) = elim (Bool-cases (v == u)) [
  | inl same ↦ rw same (subst (λ w. get_host w m ≡ none) (eq_of_== v u same) h, hs)
  | inr other ↦
      let differs : (u == v) ≡ false = ground arith in
      rw other (rw (get_host-insert v u name m, differs) h, insert-Unique u name m hs)
]

-- With one entry for each user, the user that is found for a name has the name.
pub get_host-get_uid :
    (name : Bytes) (u : ℕ) (m : UidMap)
    → Unique m
    → get_uid name m ≡ some u
    → get_host u m ≡ some name
unfolding get_uid get_host
get_host-get_uid name u [] h e = cc
get_host-get_uid name u ((v, x) ∷ m) (h, hs) e = elim (Bool-cases (x =b name)) [
  | inl named ↦
      let found : some v ≡ some u = rw named at e in
      let same : v ≡ u = cc in rw (same, ==-refl u) (ap some (eq_of_=b x name named))
  | inr unnamed ↦
      let later : get_host u m ≡ some name = get_host-get_uid name u m hs (rw unnamed at e) in
      elim (Bool-cases (v == u)) [
        | inl same ↦ cc (subst (λ w. get_host w m ≡ none) (eq_of_== v u same) h, later)
        | inr other ↦ rw other later
      ]
]

-- A name that a user has is found.
pub get_uid-found :
    (name : Bytes) (u : ℕ) (m : UidMap) → get_host u m ≡ some name → ¬ (get_uid name m ≡ none)
unfolding get_uid get_host
get_uid-found name u [] h e = cc
get_uid-found name u ((v, x) ∷ m) h e = elim (Bool-cases (x =b name)) [
  | inl named ↦ cc (rw named at e)
  | inr unnamed ↦ elim (Bool-cases (v == u)) [
    | inl same ↦
        let here : some x ≡ some name = rw same at h in
        let is_name : x ≡ name = cc in let it : (x =b name) ≡ true = rw is_name (=b-refl name) in cc
    | inr other ↦ get_uid-found name u m (rw other at h) (rw unnamed at e)
  ]
]

add_line-Unique : (l : Line) (m : UidMap) → Unique m → Unique (add_line l m)
add_line-Unique (entry u name) m h = insert-Unique u name m h
add_line-Unique blank m h = h
add_line-Unique malformed m h = h
add_line-Unique invalid_uid m h = h

pub load_lines-Unique :
    (lines : List (Option Bytes)) (m : UidMap) → Unique m → Unique (load_lines lines m).1
unfolding load_lines
load_lines-Unique [] m h = h
load_lines-Unique (none ∷ lines) m h = h
load_lines-Unique (some line ∷ lines) m h =
    load_lines-Unique lines (add_line (parse_line line) m) (add_line-Unique (parse_line line) m h)

-- A line, then later ones.
get_host-add_line :
    (uid : ℕ) (l : Line) (m : UidMap) (later : Option Bytes)
    → or_else later (get_host uid (add_line l m))
      ≡ or_else (or_earlier uid l later) (get_host uid m)
get_host-add_line uid (entry u name) m (some later) = refl
get_host-add_line uid blank m (some later) = refl
get_host-add_line uid malformed m (some later) = refl
get_host-add_line uid invalid_uid m (some later) = refl
get_host-add_line uid (entry u name) m none = elim (Bool-cases (u == uid)) [
  | inl same ↦ rw (get_host-insert uid u name m, same)
  | inr other ↦ rw (get_host-insert uid u name m, other)
]
get_host-add_line uid blank m none = refl
get_host-add_line uid malformed m none = refl
get_host-add_line uid invalid_uid m none = refl

get_host-load_lines :
    (uid : ℕ) (lines : List Bytes) (m : UidMap)
    → ((load_lines (map some lines) m).0 ≡ true)
      × (get_host uid (load_lines (map some lines) m).1
          ≡ or_else (last_name uid lines) (get_host uid m))
unfolding load_lines
get_host-load_lines uid [] m = (refl, refl)
get_host-load_lines uid (line ∷ lines) m =
    let (whole, found) = get_host-load_lines uid lines (add_line (parse_line line) m) in
    (whole, found ∙ get_host-add_line uid (parse_line line) m (last_name uid lines))

or_else-none : (o : Option Bytes) → or_else o none ≡ o
or_else-none none = refl
or_else-none (some a) = refl

-- A file whose lines can all be read is loaded whole, and what was in the map is forgotten: a user
-- has the host name of the last line that is parsed into one.
pub get_host-load :
    (uid : ℕ) (lines : List Bytes) (m : UidMap)
    → ((load (File.file (map some lines)) m).0 ≡ true)
      × (get_host uid (load (File.file (map some lines)) m).1 ≡ last_name uid lines)
unfolding load
get_host-load uid lines m =
    let (whole, found) = get_host-load_lines uid lines [] in
    (whole, found ∙ unfold get_host in or_else-none (last_name uid lines))
