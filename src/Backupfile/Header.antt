-- ===== src/Backupfile/Header.antt =====
-- The header of a file: what is written into it is what is read from it.
use shipwick.Base.{
  ℕ, ◌≤◌, ◌<◌, ◌≡◌, ap, sym, refl, true, false, List, ◌++◌, ltb, ◌==◌, length, take, drop, arith,
  length-append, take-append, drop-append,
}
use shipwick.Backupfile.{
  parsed, put_uint32, get_uint32, make_header, parse_header, is_encrypted, header_size, byte_at,
  version, chunk_size, max_iterations,
}

get_uint32-put_uint32 : (n : ℕ) → n < 4_294_967_296 → get_uint32 (put_uint32 n) ≡ n
unfolding get_uint32 put_uint32
get_uint32-put_uint32 n lt = omega (arith, lt)

pub length-make_header :
    (it : ℕ) (salt : List ℕ) → length salt ≡ 16 → length (make_header it salt) ≡ 33
unfolding make_header put_uint32
length-make_header it salt size = omega (arith, size, length-append salt (put_uint32 chunk_size))

module _ (it : ℕ) (salt rest : List ℕ) (size : length salt ≡ 16) where
  pub header_of : take header_size (make_header it salt ++ rest) ≡ make_header it salt
  header_of =
      take-append header_size (make_header it salt) rest (sym (length-make_header it salt size))

  pub body_of : drop header_size (make_header it salt ++ rest) ≡ rest
  body_of =
      drop-append header_size (make_header it salt) rest (sym (length-make_header it salt size))

  iterations_of : take 4 (drop 9 (make_header it salt)) ≡ put_uint32 it
  unfolding make_header put_uint32
  iterations_of = refl

  salt_of : take 16 (drop 13 (make_header it salt)) ≡ salt
  unfolding make_header put_uint32
  salt_of = take-append 16 salt (put_uint32 chunk_size) (sym size)

  chunk_of : take 4 (drop 29 (make_header it salt)) ≡ put_uint32 chunk_size
  unfolding make_header put_uint32
  chunk_of = ap (take 4) (drop-append 16 salt (put_uint32 chunk_size) (sym size))

  encrypted : is_encrypted (make_header it salt) ≡ true
  unfolding is_encrypted make_header put_uint32
  encrypted = ground arith

  first_version : byte_at 8 (make_header it salt) ≡ version
  unfolding make_header put_uint32
  first_version = refl

  pub parse_header-make_header :
      0 < it
      → it ≤ max_iterations
      → parse_header (make_header it salt ++ rest) ≡ parsed it salt chunk_size
  unfolding parse_header
  parse_header-make_header some_it few_it =
      let long : ltb (length (make_header it salt ++ rest)) header_size ≡ false =
        ground (arith, length-append (make_header it salt) rest, length-make_header it salt size) in
      let nonzero : (it == 0) ≡ false = ground (arith, some_it) in
      let few : ltb max_iterations it ≡ false = ground (arith, few_it) in
      rw
        (
          long,
          header_of,
          encrypted,
          first_version,
          iterations_of,
          salt_of,
          chunk_of,
          get_uint32-put_uint32 it (omega (arith, few_it)),
          get_uint32-put_uint32 chunk_size (omega arith),
          nonzero,
          few,
        )
        refl
