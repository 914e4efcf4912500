-- ===== src/Docker/Landlock/Access.antt =====
-- The rights that a rule grants.
use Prim.Native.Nat.{bit_and, bit_or}
use sandbox_tester.Common.{
  is_ok, ℕ, Char, code, String, ◌<>◌, ◌≡◌, refl, ◌∙◌, Bool, true, false, not, ◌&&◌, ◌||◌, ◌==◌,
  number_eq, leb, arith, ok, err, value_error, Bool-cases, inl, inr, is_ok->>=, ok-injective, sym,
  ap,
}
use sandbox_tester.Common.Text.{any_char}
use sandbox_tester.Docker.Landlock.{
  write_rights, access_by_name, with_rights, collect_rights, parse_access, supported_access_mask,
}

-- The letter is one of the access.
abbrev pub has : ℕ → String → Bool
has letter access = any_char (λ c. code c == letter) access

-- The rights of an access by the letters that it holds.
abbrev pub rights_of : Bool → Bool → Bool → ℕ
rights_of false false false = 24576
rights_of true false false = 24588
rights_of false true false = 32754
rights_of true true false = 32766
rights_of false false true = 24577
rights_of true false true = 24589
rights_of false true true = 32755
rights_of true true true = 32767

-- Without the two rights that every rule gets.
abbrev letters : Bool → Bool → Bool → ℕ
letters false false false = 0
letters true false false = 12
letters false true false = 8178
letters true true false = 8190
letters false false true = 1
letters true false true = 13
letters false true true = 8179
letters true true true = 8191

add_read : (r w x : Bool) → bit_or (letters r w x) 12 ≡ letters true w x
add_read false false false = refl
add_read false false true = refl
add_read false true false = refl
add_read false true true = refl
add_read true false false = refl
add_read true false true = refl
add_read true true false = refl
add_read true true true = refl

add_write : (r w x : Bool) → bit_or (letters r w x) 8178 ≡ letters r true x
add_write false false false = refl
add_write false false true = refl
add_write false true false = refl
add_write false true true = refl
add_write true false false = refl
add_write true false true = refl
add_write true true false = refl
add_write true true true = refl

add_execute : (r w x : Bool) → bit_or (letters r w x) 1 ≡ letters r w true
add_execute false false false = refl
add_execute false false true = refl
add_execute false true false = refl
add_execute false true true = refl
add_execute true false false = refl
add_execute true false true = refl
add_execute true true false = refl
add_execute true true true = refl

add_common : (r w x : Bool) → bit_or (letters r w x) (bit_or 8192 16384) ≡ rights_of r w x
add_common false false false = refl
add_common false false true = refl
add_common false true false = refl
add_common false true true = refl
add_common true false false = refl
add_common true false true = refl
add_common true true false = refl
add_common true true true = refl

-- Some letter is none of `r`, `w` and `x`.
abbrev is_unknown : Char → Bool
is_unknown c = not (code c == b'r') && (not (code c == b'w') && not (code c == b'x'))

abbrev is : ℕ → Char → Bool
is letter c = code c == letter

-- One letter adds its rights.
add_letter :
    (r w x : Bool) (c : Char)
    → is_unknown c ≡ false
    → (more : ℕ) × (with_rights (access_by_name c) c ≡ ok more)
      × (bit_or (letters r w x) more
          ≡ letters (r || code c == b'r') (w || code c == b'w') (x || code c == b'x'))
unfolding access_by_name
add_letter r w x c h = elim (Bool-cases (code c == b'r')) [
  | inl t ↦ (12, ground arith, add_read r w x ∙ ground arith)
  | inr f ↦ elim (Bool-cases (code c == b'w')) [
    | inl t ↦ (8178, ground arith, add_write r w x ∙ ground arith)
    | inr g ↦ (1, ground arith, add_execute r w x ∙ ground arith)
  ]
]

or_assoc : (a b c : Bool) → (a || (b || c)) ≡ (a || b) || c
or_assoc true b c = refl
or_assoc false b c = refl

collect_rights-step :
    (rights more : ℕ) (c : Char) (access : String)
    → with_rights (access_by_name c) c ≡ ok more
    → collect_rights rights (String.◌∷◌ c access) ≡ collect_rights (bit_or rights more) access
unfolding collect_rights
collect_rights-step rights more c access h = rw (h, collect_rights) refl

collect_rights_lem :
    (r w x : Bool) (access : String)
    → any_char is_unknown access ≡ false
    → collect_rights (letters r w x) access
      ≡ ok (letters (r || has b'r' access) (w || has b'w' access) (x || has b'x' access))
unfolding collect_rights any_char
collect_rights_lem r w x String.[] h = ground arith
collect_rights_lem r w x (String.◌∷◌ c access) h =
    let (more, found, added) = add_letter r w x c (ground arith) in
    collect_rights-step (letters r w x) more c access found
    ∙ rw (added, or_assoc r _ _, or_assoc w _ _, or_assoc x _ _)
        (collect_rights_lem (r || is b'r' c) (w || is b'w' c) (x || is b'x' c) access
          (ground arith))

with_rights_fails :
    (c : Char)
    → is_unknown c ≡ true
    → with_rights (access_by_name c) c
      ≡ err (value_error ("Unknown Landlock access right: " <> String.◌∷◌ c ""))
unfolding access_by_name
with_rights_fails c h = ground arith

is_ok-collect_rights :
    (rights : ℕ) (access : String)
    → any_char is_unknown access ≡ true
    → is_ok (collect_rights rights access) ≡ false
unfolding any_char collect_rights
is_ok-collect_rights rights String.[] h = ground arith
is_ok-collect_rights rights (String.◌∷◌ c access) h = elim (Bool-cases (is_unknown c)) [
  | inl t ↦ rw (with_rights_fails c t, collect_rights) refl
  | inr f ↦
      let (more, found, added) = add_letter false false false c f in
      rw (collect_rights-step rights more c access found)
        (is_ok-collect_rights (bit_or rights more) access (ground arith))
]

-- An access of the letters `r`, `w` and `x` grants the rights of the letters that it holds, in
-- whatever order and number they stand, and the two rights that every rule gets.
pub parse_access_lem :
    (access : String)
    → any_char is_unknown access ≡ false
    → parse_access access ≡ ok (rights_of (has b'r' access) (has b'w' access) (has b'x' access))
unfolding parse_access
parse_access_lem access h =
    rw
      (
        collect_rights_lem false false false access h,
        add_common (has b'r' access) (has b'w' access) (has b'x' access),
      )
      refl

is_ok-parse_access_fails :
    (access : String) → any_char is_unknown access ≡ true → is_ok (parse_access access) ≡ false
unfolding parse_access
is_ok-parse_access_fails access h =
    is_ok->>= (collect_rights 0 access) _ true (λ a e. refl)
    ∙ rw (is_ok-collect_rights 0 access h) refl

-- An access parses exactly when it has no letter but `r`, `w` and `x`.
pub is_ok-parse_access :
    (access : String) → is_ok (parse_access access) ≡ not (any_char is_unknown access)
is_ok-parse_access access = elim (Bool-cases (any_char is_unknown access)) [
  | inl t ↦ rw t (is_ok-parse_access_fails access t)
  | inr f ↦ rw (f, parse_access_lem access f) refl
]

without_write_all : (r x : Bool) → bit_and (bit_and (rights_of r false x) 32767) 8178 ≡ 0
without_write_all false false = refl
without_write_all false true = refl
without_write_all true false = refl
without_write_all true true = refl

without_write_some : (r x : Bool) → bit_and (bit_and (rights_of r false x) 24575) 8178 ≡ 0
without_write_some false false = refl
without_write_some false true = refl
without_write_some true false = refl
without_write_some true true = refl

without_write_refer : (r x : Bool) → bit_and (bit_and (rights_of r false x) 16383) 8178 ≡ 0
without_write_refer false false = refl
without_write_refer false true = refl
without_write_refer true false = refl
without_write_refer true true = refl

without_write_none : (r x : Bool) → bit_and (bit_and (rights_of r false x) 8191) 8178 ≡ 0
without_write_none false false = refl
without_write_none false true = refl
without_write_none true false = refl
without_write_none true true = refl

without_write :
    (r x : Bool) (abi_version : ℕ)
    → bit_and (bit_and (rights_of r false x) (supported_access_mask abi_version)) write_rights ≡ 0
unfolding supported_access_mask
without_write r x abi_version = elim (Bool-cases (leb 3 abi_version)) [
  | inl t ↦ elim (Bool-cases (leb 2 abi_version)) [
    | inl u ↦ rw (t, u) (without_write_all r x)
    | inr v ↦ rw (t, v) (without_write_some r x)
  ]
  | inr f ↦ elim (Bool-cases (leb 2 abi_version)) [
    | inl u ↦ rw (f, u) (without_write_refer r x)
    | inr v ↦ rw (f, v) (without_write_none r x)
  ]
]

-- Of an access that parses and has no `w`, the rights that are handed to the kernel, under whatever
-- version of its interface, hold none of `_WRITE_RIGHTS`.
pub parse_access_no_write :
    (access : String) (rights abi_version : ℕ)
    → parse_access access ≡ ok rights
    → has b'w' access ≡ false
    → bit_and (bit_and rights (supported_access_mask abi_version)) write_rights ≡ 0
parse_access_no_write access rights abi_version parsed absent =
    elim (Bool-cases (any_char is_unknown access)) [
      | inl t ↦ ground (arith, ap is_ok parsed, is_ok-parse_access access)
      | inr f ↦
          rw (ok-injective _ _ (sym parsed ∙ parse_access_lem access f), absent)
            (without_write (has b'r' access) (has b'x' access) abi_version)
    ]
