-- ===== src/Buffer/Tests.antt =====
-- The evbuffer functions on small inputs, and the theorems at inputs that meet their hypotheses.
use ilibevent.Base.{
  length, ℕ, ◌≡◌, refl, Option, true, List, [], ◌∷◌, some, arith, slice, ◌>>=◌, take, drop, zero,
  suc,
}
use ilibevent.Base.Int.{ℤ, to_int, pos, negsuc}
use ilibevent.Buffer.{
  Evbuffer, Done, contents, evbuffer_new, evbuffer_align, grow, enlarge, evbuffer_expand,
  evbuffer_add, drained, evbuffer_drain, evbuffer_remove, Received, io_bytes, io_sent,
  evbuffer_read, evbuffer_write, read_limit, clamp_howmuch, ReadResult,
}
use ilibevent.Buffer.Expand.{IsValid, Expands, expand_lem}
use ilibevent.Buffer.Contents.{Adds, add-append, change, remove-take}
use ilibevent.Buffer.Io.{Reads, Delivers, read-append, write-drop, AfterWrite}

-- Five bytes of which two are gone.
abbrev sample : Evbuffer
sample = record { memory = λ i. i; buffer = 2; misalign = 2; totallen = 6; off = 3; cb = true }

sample-IsValid : IsValid sample
sample-IsValid = record { aligned = refl; inside = omega arith; sized = omega arith }

abbrev fed : Option (List ℕ)
fed = evbuffer_add true evbuffer_new (7 ∷ 8 ∷ 9 ∷ []) >>= λ d.
    evbuffer_remove d.buf 1 >>= λ e. evbuffer_add true e.buf (1 ∷ []) >>= λ f. some (contents f.buf)

fed_lem : fed ≡ some (8 ∷ 9 ∷ 1 ∷ [])
unfolding evbuffer_new evbuffer_add evbuffer_expand enlarge evbuffer_align grow evbuffer_remove
    evbuffer_drain drained slice
fed_lem = refl

expand_example : Expands true sample 7 (evbuffer_expand true sample 7)
expand_example = expand_lem true sample 7 sample-IsValid (omega arith)

add-append_example : Adds true sample (1 ∷ 2 ∷ []) (evbuffer_add true sample (1 ∷ 2 ∷ []))
add-append_example = add-append true sample (1 ∷ 2 ∷ []) sample-IsValid (omega arith)

remove-take_example :
    (d : Done (ℤ × List ℕ)) × (evbuffer_remove sample 2 ≡ some d)
    × (d.value.0 ≡ to_int (length (d.value.1)))
    × (d.value.1 ≡ take 2 (contents sample))
    × IsValid d.buf
    × (contents d.buf ≡ drop 2 (contents sample))
    × (d.called ≡ change sample 1)
remove-take_example = remove-take sample 2 sample-IsValid

-- A descriptor that holds the bytes 5 and 6.
abbrev source : ℕ → Received
source zero = io_bytes []
source (suc zero) = io_bytes (5 ∷ [])
source _ = io_bytes (5 ∷ 6 ∷ [])

source-Delivers : Delivers source
source-Delivers zero bytes e = ground arith
source-Delivers (suc zero) bytes e = ground arith
source-Delivers (suc (suc n)) bytes e = ground arith

read-append_example :
    Reads true sample (source 2) (evbuffer_read true (some (pos 2)) source sample (negsuc 0))
unfolding read_limit clamp_howmuch
read-append_example =
    read-append true (some (pos 2)) source sample (negsuc 0) sample-IsValid source-Delivers
      (omega arith)

write-drop_example :
    (d : Done ReadResult) × (evbuffer_write (λ _. io_sent 2) sample ≡ some d)
    × AfterWrite sample (io_sent 2) d
write-drop_example = write-drop (λ _. io_sent 2) sample sample-IsValid
