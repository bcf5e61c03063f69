-- ===== src/Irods/Xattrs/Laws.antt =====
-- The buffers of the extended attributes in irods.go.
use irodsfs.Base.{
  ◌≡◌, ◌≢◌, max, zero, refl, ap, ◌∙◌, ℕ, suc, ◌+◌, ◌^◌, ◌%◌, ◌≤◌, ◌<◌, true, ◌==◌, arith, some,
  List, [], ◌∷◌, ◌++◌, map, length, take, drop, Text, All, if◌then◌else◌, length-append, ltb,
  Bool-cases, inl, inr,
}
use irodsfs.Types.{Errno, ok, erange}
use irodsfs.Env.{External, Sys, Meta, replied}
use irodsfs.Irods.Xattrs.{xattr_names, irods_listxattr, irods_getxattr, copy, put_names, put_value}

-- A reader of a list of NUL-terminated names.
abbrev push : ℕ → List Text → List Text
push c [] = []
push c (name ∷ names) = (c ∷ name) ∷ names

abbrev pub split_names : List ℕ → List Text
split_names [] = []
split_names (c ∷ cs) = let rest = split_names cs in if c == 0 then [] ∷ rest else push c rest

abbrev pub NoNul : Text → Type 0
NoNul [] = Unit
NoNul (c ∷ cs) = (c ≢ 0) × NoNul cs

split_names-append :
    (name ys : List ℕ) → NoNul name → split_names (name ++ 0 ∷ ys) ≡ name ∷ split_names ys
split_names-append [] ys h = refl
split_names-append (c ∷ cs) ys (h, hs) =
    let ih = split_names-append cs ys hs in rw ih (ground (arith, h))

split_names-xattr_names :
    (l : List Meta) → All (λ m. NoNul m.name) l → split_names (xattr_names l) ≡ map (λ m. m.name) l
unfolding xattr_names
split_names-xattr_names [] h = refl
split_names-xattr_names (m ∷ l) (h, hs) =
    split_names-append m.name (xattr_names l) h
    ∙ ap (λ r. m.name ∷ r) (split_names-xattr_names l hs)

take-append : (xs ys : List ℕ) → take (length xs) (xs ++ ys) ≡ xs
take-append [] ys = refl
take-append (x ∷ xs) ys = ap (λ r. x ∷ r) (take-append xs ys)

take_all : (n : ℕ) (xs : List ℕ) → length xs ≤ n → take n xs ≡ xs
take_all zero [] h = refl
take_all zero (x ∷ xs) h = absurd (omega (arith, h))
take_all (suc n) [] h = refl
take_all (suc n) (x ∷ xs) h = ap (λ r. x ∷ r) (take_all n xs (omega (arith, h)))

length-drop : (n : ℕ) (xs : List ℕ) → n + length (drop n xs) ≡ max n (length xs)
length-drop zero xs = ground arith
length-drop (suc n) [] = ground arith
length-drop (suc n) (x ∷ xs) = let ih = length-drop n xs in ground arith

-- A `copy` into a buffer with room.
copy_lem :
    (dest src : List ℕ)
    → length src ≤ length dest
    → (take (length src) (copy dest src) ≡ src) × (length (copy dest src) ≡ length dest)
copy_lem dest src h =
    let t = take_all (length dest) src h in
    let d = length-drop (length src) dest in
    let a = length-append src (drop (length src) dest) in
    rw t (take-append src (drop (length src) dest), omega (arith, h, d, a))

small : (n : ℕ) → n < 2 ^ 32 → n % 2 ^ 32 ≡ n
small n h = omega (arith, h)

-- The size that `IRODSListxattr` and `IRODSGetxattr` answer, with the error and the buffer.
abbrev Put : List ℕ → List ℕ → ℕ × Errno × List ℕ → Type 0
Put dest bytes (size, errno, dest') =
    (size ≡ length bytes)
    × (size ≤ length dest → (errno ≡ ok) × (take size dest' ≡ bytes) × (length dest' ≡ length dest))
    × (length dest < size → (errno ≡ erange) × (dest' ≡ dest))

put_value-Put :
    (dest bytes : List ℕ) → length bytes < 2 ^ 32 → Put dest bytes (put_value dest bytes)
put_value-Put dest bytes b = elim (Bool-cases (ltb (length dest) (length bytes))) [
  | inl e ↦ rw e (ground (arith, b), λ h. ground (arith, b, e, h), λ h. (refl, refl))
  | inr e ↦
      let c = copy_lem dest bytes (ground (arith, e)) in
      let m = small (length bytes) b in
      rw (e, m) (refl, λ h. (refl, c.0, c.1), λ h. ground (arith, e, h))
]

positive : (n : ℕ) → ltb 0 (suc n) ≡ true
positive n = ground arith

put_names-Put :
    (dest bytes : List ℕ) → length bytes < 2 ^ 32 → Put dest bytes (put_names dest bytes)
put_names-Put dest [] b = elim (Bool-cases (ltb (length dest) 0)) [
  | inl e ↦ absurd (ground (arith, e))
  | inr e ↦ rw e (refl, λ h. (refl, refl, refl), λ h. absurd (omega (arith, h)))
]
put_names-Put dest (c ∷ cs) b = rw (positive (length cs)) (put_value-Put dest (c ∷ cs) b)

-- When the server lists attributes whose names have no NUL and take less than 2^32 bytes together,
-- and the buffer has room, `IRODSListxattr` answers no error and a size, fills the buffer's first
-- bytes up to that size with the names, each ended by a NUL, and keeps the buffer's length.
-- Without room it answers `ERANGE` and the size that suffices, and leaves the buffer alone.
pub irods_listxattr_lem :
    (E : External) (path : Text) (dest : List ℕ) (s : Sys E) (l : List Meta)
    → (E.list_xattr path s.world).0 ≡ replied l
    → All (λ m. NoNul m.name) l
    → length (xattr_names l) < 2 ^ 32
    → let (size, errno, dest') = (irods_listxattr E path dest s).0 in
      (size ≡ length (xattr_names l))
      × (size ≤ length dest
          → (errno ≡ ok)
            × (split_names (take size dest') ≡ map (λ m. m.name) l)
            × (length dest' ≡ length dest))
      × (length dest < size → (errno ≡ erange) × (dest' ≡ dest))
unfolding irods_listxattr
irods_listxattr_lem E path dest s l e h b =
    let (size, room, short) = put_names-Put dest (xattr_names l) b in
    rw e (
      size,
      λ r. let (q, t, n) = room r in (q, ap split_names t ∙ split_names-xattr_names l h, n),
      short,
    )

-- When the server knows an attribute whose value takes less than 2^32 bytes, and the buffer has room,
-- `IRODSGetxattr` answers no error and the value's size, and puts the value at the start of the
-- buffer. Without room it answers `ERANGE` and the size that suffices, and leaves the buffer alone.
pub irods_getxattr_lem :
    (E : External) (path attr : Text) (dest : List ℕ) (s : Sys E) (m : Meta)
    → (E.get_xattr path attr s.world).0 ≡ replied (some m)
    → length m.value < 2 ^ 32
    → let (size, errno, dest') = (irods_getxattr E path attr dest s).0 in
      (size ≡ length m.value)
      × (size ≤ length dest
          → (errno ≡ ok) × (take size dest' ≡ m.value) × (length dest' ≡ length dest))
      × (length dest < size → (errno ≡ erange) × (dest' ≡ dest))
unfolding irods_getxattr
irods_getxattr_lem E path attr dest s m e b = rw e (put_value-Put dest m.value b)
