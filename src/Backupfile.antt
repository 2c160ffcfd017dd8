-- ===== src/Backupfile.antt =====
-- The encrypted form of a backup: pkg/backupfile/backupfile.go. Bytes are numbers. The cipher of a
-- file (AES-GCM under the key that PBKDF2 derives, the header being its additional data) is a
-- parameter, an `Aead`; the counter and the marker of the last chunk are its nonce. The size of a
-- chunk is an argument of the stream, since a reader takes it from the header.
pub mod Header
pub mod Stream
pub mod Chunks
pub mod Files
pub mod Sizes
use shipwick.Base.{
  ℕ, zero, suc, ◌+◌, ◌-◌, ◌*◌, ◌/◌, ◌%◌, min, Bool, true, false, not, ◌&&◌, ◌||◌, Option, none,
  some, List, [], ◌∷◌, ◌++◌, ltb, leb, ◌==◌, if◌then◌else◌, length, take, drop,
}

pub record Aead : Type 0 where
  pub seal : ℕ → Bool → List ℕ → List ℕ
  pub unseal : ℕ → Bool → List ℕ → Option (List ℕ)

abbrev pub tag_size : ℕ
tag_size = 16

abbrev pub chunk_size : ℕ
chunk_size = 65536

-- What is in the file so far, and what the writer keeps in memory.
pub record Writer : Type 0 where
  pub out : List ℕ
  pub buf : List ℕ
  pub index : ℕ
  pub failed : Bool
  pub closed : Bool

pub data WriteError : Type 0 where
  sink_failed closed_backup : WriteError

module _ (a : Aead) (takes : ℕ → Bool) where
  -- `takes`: the sink takes the chunk of that index. What part of a chunk a sink that fails has
  -- taken is left open: it is nothing here.
  unfoldable pub seal_chunk : Bool → Writer → Writer
  seal_chunk last w = record w {
    out = if takes w.index then w.out ++ a.seal w.index last w.buf else w.out;
    index = w.index + 1;
    buf = [];
    failed = not (takes w.index);
  }

  -- The loop of `Write` over what is left of its argument, with the number of bytes taken so far.
  unfoldable pub write_loop : ℕ → ℕ → List ℕ → ℕ → Writer → Writer × ℕ
  unfolding seal_chunk
  write_loop c zero p written w = (w, written)
  write_loop c (suc fuel) [] written w = (w, written)
  write_loop c (suc fuel) (b ∷ bs) written w =
      let p = b ∷ bs in
      let v = if length w.buf == c then seal_chunk false w else w in
      let n = min (c - length v.buf) (length p) in
      let more =
        write_loop c fuel (drop n p) (written + n) (record v { buf = v.buf ++ take n p }) in
      if v.failed then (v, written) else more

  unfoldable pub write : ℕ → List ℕ → Writer → Writer × ℕ × Option WriteError
  unfolding write_loop
  write c p w =
      let r = write_loop c (length p) p 0 w in
      if w.failed
      then (w, 0, some sink_failed)
      else if w.closed
      then (w, 0, some closed_backup)
      else (r.0, r.1, if r.0.failed then some sink_failed else none)

  -- Whether it succeeds is whether the writer has not failed.
  unfoldable pub close : Writer → Writer
  unfolding seal_chunk
  close w =
      if w.closed
      then w
      else if w.failed
      then record w { closed = true }
      else record (seal_chunk true w) { closed = true }

-- A file that is read to its end.
pub data ReadError : Type 0 where
  not_encrypted unsupported_version corrupt no_passphrase wrong_passphrase : ReadError

pub data Reading : Type 0 where
  plain : List ℕ → Reading
  broken : ReadError → Reading

abbrev pub is_broken : Reading → Bool
is_broken (plain bytes) = false
is_broken (broken e) = true

abbrev pub then_plain : List ℕ → Reading → Reading
then_plain bytes (plain rest) = plain (bytes ++ rest)
then_plain bytes (broken e) = broken e

abbrev pub is_nil {ℓ} : {A : Type ℓ} → List A → Bool
is_nil [] = true
is_nil (x ∷ xs) = false

-- A chunk that was opened, or was not.
abbrev pub opened : Option (List ℕ) → Bool → ReadError → Reading → Reading
opened none last failure more = broken failure
opened (some bytes) true failure more = plain bytes
opened (some bytes) false failure more = then_plain bytes more

-- The chunks that `Read` opens one by one until the last; `bytes` is the file behind its header.
-- The fuel is a bound on the number of chunks.
unfoldable pub read_chunks : Aead → ℕ → ℕ → ℕ → List ℕ → Reading
read_chunks a c zero index bytes = broken corrupt
read_chunks a c (suc fuel) index bytes =
    let sealed = take (c + tag_size) bytes in
    let rest = drop (c + tag_size) bytes in
    let last = ltb (length sealed) (c + tag_size) || is_nil rest in
    let failure : ReadError = if index == 0 then wrong_passphrase else corrupt in
    let more = read_chunks a c fuel (index + 1) rest in
    if ltb (length sealed) tag_size
    then broken failure
    else opened (a.unseal index last sealed) last failure more

-- Header.

abbrev pub magic : List ℕ
magic = 83 ∷ 87 ∷ 66 ∷ 65 ∷ 67 ∷ 75 ∷ 85 ∷ 80 ∷ []

abbrev pub version : ℕ
version = 1

abbrev pub header_size : ℕ
header_size = 33

abbrev pub max_chunk_size : ℕ
max_chunk_size = 16_777_216

abbrev pub max_iterations : ℕ
max_iterations = 10_000_000

-- binary.BigEndian, 32 bits
unfoldable pub put_uint32 : ℕ → List ℕ
put_uint32 n = n / 16_777_216 % 256 ∷ n / 65_536 % 256 ∷ n / 256 % 256 ∷ n % 256 ∷ []

unfoldable pub get_uint32 : List ℕ → ℕ
get_uint32 (x ∷ y ∷ z ∷ w ∷ []) = ((x * 256 + y) * 256 + z) * 256 + w
get_uint32 _ = 0

unfoldable pub make_header : ℕ → List ℕ → List ℕ
unfolding put_uint32
make_header iterations salt =
    magic ++ (version ∷ put_uint32 iterations ++ (salt ++ put_uint32 chunk_size))

abbrev pub same_bytes : List ℕ → List ℕ → Bool
same_bytes [] [] = true
same_bytes (x ∷ xs) (y ∷ ys) = x == y && same_bytes xs ys
same_bytes _ _ = false

unfoldable pub is_encrypted : List ℕ → Bool
is_encrypted head = leb 8 (length head) && same_bytes (take 8 head) magic

abbrev pub byte_at : ℕ → List ℕ → ℕ
byte_at i [] = 0
byte_at zero (x ∷ xs) = x
byte_at (suc i) (x ∷ xs) = byte_at i xs

-- What the header of a file asks for: the iterations, the salt and the size of a chunk.
pub data Parsed : Type 0 where
  parsed : ℕ → List ℕ → ℕ → Parsed
  refused : ReadError → Parsed

unfoldable pub parse_header : List ℕ → Parsed
unfolding is_encrypted get_uint32
parse_header file =
    let header = take header_size file in
    let iterations = get_uint32 (take 4 (drop 9 header)) in
    let chunk = get_uint32 (take 4 (drop 29 header)) in
    if ltb (length file) header_size
    then refused not_encrypted
    else if not (is_encrypted header)
    then refused not_encrypted
    else if not (byte_at 8 header == version)
    then refused unsupported_version
    else if iterations == 0
        || ltb max_iterations iterations
        || (chunk == 0 || ltb max_chunk_size chunk)
    then refused corrupt
    else parsed iterations (take 16 (drop 13 header)) chunk

-- The cipher that a passphrase, a salt and a number of iterations give, with the header that it
-- authenticates.
abbrev pub Ciphers : Type 0
Ciphers = List ℕ → ℕ → List ℕ → List ℕ → Aead

-- A reader that is asked for everything, once the header is parsed.
unfoldable pub read_parsed : Ciphers → List ℕ → List ℕ → Parsed → Reading
unfolding read_chunks
read_parsed ciphers passphrase file (refused e) = broken e
read_parsed ciphers passphrase file (parsed iterations salt chunk) =
    let header = take header_size file in
    if is_nil passphrase
    then broken no_passphrase
    else read_chunks (ciphers passphrase iterations salt header) chunk (length file) 0
        (drop header_size file)

unfoldable pub read_file : Ciphers → List ℕ → List ℕ → Reading
unfolding parse_header read_parsed
read_file ciphers passphrase file = read_parsed ciphers passphrase file (parse_header file)

-- The writer of a new file: the passphrase must not be empty.
unfoldable pub new_writer : List ℕ → ℕ → List ℕ → Option Writer
unfolding make_header
new_writer passphrase iterations salt =
    if is_nil passphrase
    then none
    else some (record {
      out = make_header iterations salt;
      buf = [];
      index = 0;
      failed = false;
      closed = false;
    })

unfoldable pub plain_size : ℕ → Option ℕ
plain_size encrypted =
    let body = encrypted - header_size in
    let sealed_chunk = chunk_size + tag_size in
    let full = body / sealed_chunk in
    let rest = body % sealed_chunk in
    if ltb body tag_size
    then none
    else if rest == 0
    then some (full * chunk_size)
    else if ltb rest tag_size || (rest == tag_size && ltb 0 full)
    then none
    else some (full * chunk_size + rest - tag_size)
