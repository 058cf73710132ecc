-- ===== src/Sse/Frames.antt =====
-- internal/sse/broker.go: the text that `ServeHTTP` writes for an event, and how a browser reads it back,
-- by the rules of the standard for event streams.
use mathlib.Core.List.{append_assoc}
use monitoring.Base.{
  ◌==◌, if◌then◌else◌, All, All-append, Text, bytes, text_discrete, ℕ, ◌≡◌, refl, ap, ◌∙◌, ◌≢◌, ite,
  Bool, true, false, Option, none, some, List, [], ◌∷◌, ◌++◌, arith,
}
use monitoring.Sse.Broker.{Event}

-- `fmt.Fprintf(w, "event: %s\ndata: %s\n\n", evt.Type, evt.Data)`
unfoldable pub frame : Event → Text
frame e =
    bytes "event: " ++ (e.type ++ (b'\n' ∷ (bytes "data: " ++ (e.payload ++ (b'\n' ∷ b'\n' ∷ [])))))

unfoldable pub stream : List Event → Text
unfolding frame
stream [] = []
stream (e ∷ rest) = frame e ++ stream rest

abbrev push_byte : ℕ → List Text → List Text
push_byte c [] = (c ∷ []) ∷ []
push_byte c (l ∷ ls) = (c ∷ l) ∷ ls

-- The lines of a stream: a line feed, a carriage return, or both ends one. The last line may not have
-- ended; `cr` says that the byte before was a carriage return.
unfoldable pub stream_lines : Bool → Text → List Text
stream_lines cr [] = [] ∷ []
stream_lines cr (c ∷ s) =
    let same = stream_lines false s in
    let after_cr = stream_lines true s in
    if c == b'\n'
    then (if cr then same else [] ∷ same)
    else if c == b'\r'
    then [] ∷ after_cr
    else push_byte c same

abbrev strip_space : Text → Text
strip_space [] = []
strip_space (c ∷ s) = if c == b' ' then s else c ∷ s

abbrev pub is_empty_text : Text → Bool
is_empty_text [] = true
is_empty_text (c ∷ s) = false

abbrev add_name_byte : ℕ → Text × Text → Text × Text
add_name_byte c (name, value) = (c ∷ name, value)

-- The name and the value of a field: what stands before and behind the first colon.
unfoldable pub field_of : Text → Text × Text
field_of [] = ([], [])
field_of (c ∷ s) =
    let rest = field_of s in if c == b':' then ([], strip_space s) else add_name_byte c rest

-- What the reader has of the event that it reads; `data` is none before a line of data.
pub record Buffers : Type 0 where
  pub type_buffer : Text
  pub data_buffer : Option Text

abbrev no_buffers : Buffers
no_buffers = record { type_buffer = []; data_buffer = none }

abbrev add_data : Text → Option Text → Option Text
add_data value none = some value
add_data value (some text) = some (text ++ b'\n' ∷ value)

abbrev is_text : Text → Text → Bool
is_text s t = ite (text_discrete s t) true false

unfoldable pub add_field : Text × Text → Buffers → Buffers
add_field (name, value) b =
    if is_text name (bytes "event")
    then record b { type_buffer = value }
    else if is_text name (bytes "data")
    then record b { data_buffer = add_data value b.data_buffer }
    else b

-- An event without a type is a message.
abbrev type_or_message : Text → Text
type_or_message [] = bytes "message"
type_or_message (c ∷ s) = c ∷ s

abbrev dispatch : Buffers → Option Text → List Event → List Event
dispatch b none rest = rest
dispatch b (some text) rest = record { type = type_or_message b.type_buffer; payload = text } ∷ rest

-- An empty line dispatches what was read; a line that has not ended is not looked at.
unfoldable pub read_lines : Buffers → List Text → List Event
read_lines b [] = []
read_lines b (l ∷ []) = []
read_lines b ([] ∷ m ∷ rest) = dispatch b b.data_buffer (read_lines no_buffers (m ∷ rest))
read_lines b ((c ∷ l) ∷ m ∷ rest) = read_lines (add_field (field_of (c ∷ l)) b) (m ∷ rest)

unfoldable pub read_stream : Text → List Event
read_stream s = read_lines no_buffers (stream_lines false s)

-- A text without the ends of a line.
abbrev pub IsOneLine : Text → Type 0
IsOneLine s = All (λ (c : ℕ). (c ≢ b'\n') × (c ≢ b'\r')) s

stream_lines-one :
    (s rest : Text)
    → IsOneLine s
    → stream_lines false (s ++ b'\n' ∷ rest) ≡ s ∷ stream_lines false rest
unfolding stream_lines
stream_lines-one [] rest h = refl
stream_lines-one (c ∷ s) rest h = ground (arith, h.0, stream_lines-one s rest h.1)

-- There is always a last line, ended or not.
stream_lines-cons :
    (cr : Bool) (s : Text) → (l : Text) × (ls : List Text) × (stream_lines cr s ≡ l ∷ ls)
unfolding stream_lines
stream_lines-cons cr [] = (_, _, refl)
stream_lines-cons cr (c ∷ s) = pieces cr (c == b'\n') (c == b'\r') (stream_lines-cons false s)
  where
    pushed : (ls : List Text) → (l : Text) × (ls' : List Text) × (push_byte c ls ≡ l ∷ ls')
    pushed [] = (_, _, refl)
    pushed (l ∷ ls) = (_, _, refl)

    pieces :
        (cr lf ret : Bool)
        → (l : Text) × (ls : List Text) × (stream_lines false s ≡ l ∷ ls)
        → let same = stream_lines false s in
          (l : Text) × (ls : List Text) × ((if lf
              then (if cr then same else [] ∷ same)
              else if ret
              then [] ∷ stream_lines true s
              else push_byte c same)
            ≡ l ∷ ls)
    pieces true true ret h = h
    pieces false true ret h = (_, _, refl)
    pieces cr false true h = (_, _, refl)
    pieces cr false false h = pushed (stream_lines false s)

abbrev event_line : Text → Text
event_line type = bytes "event: " ++ type

abbrev data_line : Text → Text
data_line payload = bytes "data: " ++ payload

frame-lines :
    (e : Event) (s : Text)
    → IsOneLine e.type
    → IsOneLine e.payload
    → stream_lines false (frame e ++ s)
      ≡ event_line e.type ∷ data_line e.payload ∷ [] ∷ stream_lines false s
unfolding frame
frame-lines e s ht hp =
    let after = b'\n' ∷ b'\n' ∷ s in
    let spread : frame e ++ s ≡ event_line e.type ++ b'\n' ∷ (data_line e.payload ++ after) =
      ap (λ t. bytes "event: " ++ t)
        (append_assoc e.type _ s
          ∙ ap (λ t. e.type ++ (b'\n' ∷ (bytes "data: " ++ t)))
              (append_assoc e.payload (b'\n' ∷ b'\n' ∷ []) s)) in
    ap (stream_lines false) spread
    ∙ stream_lines-one (event_line e.type) (data_line e.payload ++ after)
        (All-append _ (bytes "event: ") e.type (ground arith) ht)
    ∙ ap (◌∷◌ (event_line e.type)) (
        stream_lines-one (data_line e.payload) (b'\n' ∷ s)
          (All-append _ (bytes "data: ") e.payload (ground arith) hp)
        ∙ ap (◌∷◌ (data_line e.payload)) (stream_lines-one [] s tt))

type_full : (t : Text) → is_empty_text t ≡ false → type_or_message t ≡ t
type_full [] h = cc
type_full (c ∷ t) h = refl

read-frame :
    (e : Event) (s : Text)
    → is_empty_text e.type ≡ false
    → IsOneLine e.type
    → IsOneLine e.payload
    → read_stream (frame e ++ s) ≡ e ∷ read_stream s
unfolding read_stream read_lines field_of add_field text_discrete
read-frame e s full ht hp =
    let (l, ls, cut) = stream_lines-cons false s in
    rw (frame-lines e s ht hp, cut)
      (ap (λ t. record { type = t; payload = e.payload } ∷ read_lines no_buffers (l ∷ ls))
        (type_full e.type full))

-- An event that the program broadcasts: a type, and neither it nor the JSON text ends a line.
abbrev pub IsFramed : Event → Type 0
IsFramed e = (is_empty_text e.type ≡ false) × IsOneLine e.type × IsOneLine e.payload

-- What `ServeHTTP` writes for a sequence of events, each with a type, and none with the end of a
-- line in its type or its data, a browser reads back, by the rules of the standard for event
-- streams, as that sequence.
pub read-stream : (es : List Event) → All IsFramed es → read_stream (stream es) ≡ es
unfolding stream read_stream read_lines stream_lines
read-stream [] h = refl
read-stream (e ∷ rest) h =
    read-frame e (stream rest) h.0.0 h.0.1 h.0.2 ∙ ap (◌∷◌ e) (read-stream rest h.1)
