-- ===== src/Handler/Stream.antt =====
-- The read and the write loop of `daHandler` against the bytes of the connection.
use chronos_xserver.Prelude.{
  ℕ, zero, suc, ◌+◌, ◌<◌, ◌≡◌, refl, sym, subst, ap, ◌∙◌, List, [], ◌∷◌, ◌++◌, arith, append_assoc,
  length, take, drop, take-append-drop,
}
use chronos_xserver.Handler.{
  ReadResult, read_error, end_of_stream, byte, ReadEnd, complete, read_failed, reading, and_byte,
  read_request, WriteResult, write_error, took, WriteEnd, written, write_failed, writing, behind,
  write_response,
}

-- the bytes that a list of calls of `read` gives
abbrev pub data_of : List ReadResult → List ℕ
data_of [] = []
data_of (read_error ∷ reads) = data_of reads
data_of (end_of_stream ∷ reads) = data_of reads
data_of (byte b ∷ reads) = b ∷ data_of reads

-- How the read loop stands: with the first bytes of the stream, as many as asked for; at an error;
-- or with all that came, which is too little.
abbrev pub ReadOf : ℕ → List ReadResult → ReadEnd → Type 0
ReadOf n reads (complete bytes rest) = (length bytes ≡ n) × (data_of reads ≡ bytes ++ data_of rest)
ReadOf n reads read_failed = Unit
ReadOf n reads (reading left) = (left + length (data_of reads) ≡ n) × (0 < left)

and_byte-ReadOf :
    (n b : ℕ) (reads : List ReadResult) (r : ReadEnd)
    → ReadOf n reads r
    → ReadOf (suc n) (byte b ∷ reads) (and_byte b r)
and_byte-ReadOf n b reads (complete bytes rest) (e, split) = (ap suc e, ap (λ l. b ∷ l) split)
and_byte-ReadOf n b reads read_failed h = tt
and_byte-ReadOf n b reads (reading left) (e, h) = (omega arith, h)

skip-ReadOf :
    (n : ℕ) (reads : List ReadResult) (r : ReadEnd)
    → ReadOf n reads r
    → ReadOf n (end_of_stream ∷ reads) r
skip-ReadOf n reads (complete bytes rest) h = h
skip-ReadOf n reads read_failed h = h
skip-ReadOf n reads (reading left) h = h

pub read_request-ReadOf : (n : ℕ) (reads : List ReadResult) → ReadOf n reads (read_request n reads)
unfolding read_request
read_request-ReadOf zero reads = (refl, refl)
read_request-ReadOf (suc n) [] = (omega arith, omega arith)
read_request-ReadOf (suc n) (read_error ∷ reads) = tt
read_request-ReadOf (suc n) (end_of_stream ∷ reads) =
    skip-ReadOf (suc n) reads (read_request (suc n) reads) (read_request-ReadOf (suc n) reads)
read_request-ReadOf (suc n) (byte b ∷ reads) =
    and_byte-ReadOf n b reads (read_request n reads) (read_request-ReadOf n reads)

-- What went out: all bytes, or bytes at the front.
abbrev pub WrittenOf : List ℕ → WriteEnd → Type 0
WrittenOf bytes (written out) = out ≡ bytes
WrittenOf bytes (write_failed out) = (rest : List ℕ) × (bytes ≡ out ++ rest)
WrittenOf bytes (writing out) = (rest : List ℕ) × (bytes ≡ out ++ rest) × (0 < length rest)

behind-WrittenOf :
    (front rest : List ℕ) (r : WriteEnd)
    → WrittenOf rest r
    → WrittenOf (front ++ rest) (behind front r)
behind-WrittenOf front rest (written out) e = ap (λ l. front ++ l) e
behind-WrittenOf front rest (write_failed out) (more, e) =
    (more, ap (λ l. front ++ l) e ∙ sym (append_assoc front out more))
behind-WrittenOf front rest (writing out) (more, e, h) =
    (more, ap (λ l. front ++ l) e ∙ sym (append_assoc front out more), h)

pub write_response-WrittenOf :
    (bytes : List ℕ) (writes : List WriteResult) → WrittenOf bytes (write_response bytes writes)
unfolding write_response
write_response-WrittenOf [] writes = refl
write_response-WrittenOf (b ∷ bytes) [] = (b ∷ bytes, refl, omega arith)
write_response-WrittenOf (b ∷ bytes) (write_error ∷ writes) = (b ∷ bytes, refl)
write_response-WrittenOf (b ∷ bytes) (took n ∷ writes) =
    subst (λ l. WrittenOf l (write_response (b ∷ bytes) (took n ∷ writes)))
      (take-append-drop n (b ∷ bytes))
      (behind-WrittenOf (take n (b ∷ bytes)) (drop n (b ∷ bytes)) _
        (write_response-WrittenOf (drop n (b ∷ bytes)) writes))
