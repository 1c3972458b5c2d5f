-- ===== src/ImageWrite/Reader.antt =====
-- The io.Reader that the image arrives on, behind io.LimitReader and io.TeeReader as Write of
-- imagewrite.go stacks them, and io.ReadFull over that stack.
pub mod Laws
use dc_1_pmos.Base.{
  ℕ, zero, suc, ◌+◌, ◌-◌, ◌≤◌, ◌<◌, min, ◌≡◌, refl, ap, sym, ◌∙◌, Bool, true, false, List, [], ◌∷◌,
  ◌++◌, Option, none, some, arith, append-nil, append_assoc, ltb, leb, ◌==◌, if◌then◌else◌, Bytes,
  length, length-append, length-take, take, drop,
}

-- `failed` carries the error of the connection underneath.
pub data ReadError : Type 0 where
  eof unexpected_eof : ReadError
  failed : ℕ → ReadError

-- A connection: what each Read returns at most, and how it ends (io.EOF, or an error).
pub record Source : Type 0 where
  pub chunks : List Bytes
  pub ending : ReadError

abbrev pub flat : List Bytes → Bytes
flat [] = []
flat (c ∷ cs) = c ++ flat cs

-- What one io.ReadFull got: the bytes, the error, and the chunks that are left.
pub record Got : Type 0 where
  pub bytes : Bytes
  pub error : Option ReadError
  pub rest : List Bytes

prepend : Bytes → Got → Got
prepend c g = record g { bytes = c ++ g.bytes }

-- The loop of io.ReadAtLeast: Read until `n` bytes have come or a Read fails. A Read takes a
-- whole chunk, or as much of it as there is room for.
unfoldable pub fill : ReadError → ℕ → List Bytes → Got
unfolding prepend
fill e zero cs = record { bytes = []; error = none; rest = cs }
fill e (suc n) [] = record { bytes = []; error = some e; rest = [] }
fill e (suc n) (c ∷ cs) =
    let more = prepend c (fill e (suc n - length c) cs) in
    if leb (length c) (suc n)
    then more
    else record { bytes = take (suc n) c; error = none; rest = drop (suc n) c ∷ cs }

-- io.ReadFull calls an end of input after the first byte io.ErrUnexpectedEOF.
pub full_error : Bytes → Option ReadError → Option ReadError
full_error (b ∷ bs) (some eof) = some unexpected_eof
full_error bs e = e

-- io.TeeReader(io.LimitReader(src, size), hasher): what is left of the limit, and what the
-- hasher has been given.
pub record Stream : Type 0 where
  pub source : Source
  pub left : ℕ
  pub hashed : Bytes

pub record Read : Type 0 where
  pub bytes : Bytes
  pub error : Option ReadError
  pub stream : Stream

-- The end that the limit reader reports when its limit, not the source, stops the read.
pub limit_error : ℕ → ℕ → Option ReadError → Option ReadError
limit_error n left (some e) = some e
limit_error n left none = if ltb left n then some eof else none

-- io.ReadFull(stream, buf[:n])
unfoldable pub read_full : ℕ → Stream → Read
unfolding full_error limit_error fill
read_full n s =
    let g = fill s.source.ending (min n s.left) s.source.chunks in
    record {
      bytes = g.bytes;
      error = full_error g.bytes (limit_error n s.left g.error);
      stream = record {
        source = record { chunks = g.rest; ending = s.source.ending };
        left = s.left - length g.bytes;
        hashed = s.hashed ++ g.bytes;
      };
    }
