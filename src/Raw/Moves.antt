-- ===== src/Raw/Moves.antt =====
-- How `_route` of src/protocols_raw.c moves an event over its size and ends it with a NUL.
use quick_io.Common.{
  ℕ, ◌+◌, ◌<◌, ◌≡◌, refl, sym, ap, ◌∙◌, [], ◌∷◌, ◌++◌, Bytes, length, take, drop, length-append,
  append_assoc, arith,
}
use quick_io.Buffer.{read, write}
use quick_io.Buffer.Laws.{
  write_middle, drop_front, take_front, drop-add, length-drop, length-take, take-append-drop,
}

-- What is left of the size and the event behind the event that was moved to the front.
abbrev pub leftover : Bytes → Bytes → Bytes
leftover size event = drop (length event) (size ++ event)

pub length-leftover : (size event : Bytes) → length (leftover size event) ≡ length size
length-leftover size event =
    omega (arith, length-drop (length event) (size ++ event), length-append size event)

pub read_behind :
    (front size event back : Bytes)
    → read (length front + length size) (length event) (front ++ (size ++ (event ++ back))) ≡ event
read_behind front size event back =
    rw
      (
        drop-add (length front) (length size) (front ++ (size ++ (event ++ back))),
        drop_front front (size ++ (event ++ back)),
        drop_front size (event ++ back),
      )
      (take_front event back)

-- As many bytes as the event has, written where its size stood.
pub write_over :
    (front size event new back : Bytes)
    → length new ≡ length event
    → write (length front) new (front ++ (size ++ (event ++ back)))
      ≡ front ++ (new ++ (leftover size event ++ back))
write_over front size event new back e =
    let n = length event in
    let region = size ++ event in
    let split : size ++ (event ++ back) ≡ take n region ++ (drop n region ++ back) =
      sym (append_assoc size event back)
      ∙ ap (λ (l : Bytes). l ++ back) (sym (take-append-drop n region))
      ∙ append_assoc (take n region) (drop n region) back in
    let same : length (take n region) ≡ length new =
      length-take n region (omega (arith, length-append size event)) ∙ sym e in
    rw split (write_middle front (take n region) new (drop n region ++ back) same)

-- The `memmove`: the event stands where its size stood.
pub moved_event :
    (front size event back : Bytes)
    → write
        (length front)
        (read (length front + length size) (length event) (front ++ (size ++ (event ++ back))))
        (front ++ (size ++ (event ++ back)))
      ≡ front ++ (event ++ (leftover size event ++ back))
moved_event front size event back =
    rw (read_behind front size event back) (write_over front size event event back refl)

-- The NUL behind the event, on the first byte of what was left over.
pub end_over :
    (front event gap back : Bytes)
    → 0 < length gap
    → (tail : Bytes) × (write
          (length front + length event)
          (0 ∷ [])
          (front ++ (event ++ (gap ++ back)))
        ≡ front ++ (event ++ (0 ∷ tail)))
      × (length tail + 1 ≡ length gap + length back)
      × (drop (length gap) (0 ∷ tail) ≡ back)
end_over front event [] back h = absurd (omega arith)
end_over front event (x ∷ gap) back h = (
  gap ++ back,
  rw
      (
        ← length-append front event,
        ← append_assoc front event (x ∷ (gap ++ back)),
        ← append_assoc front event (0 ∷ (gap ++ back)),
      )
      (write_middle (front ++ event) (x ∷ []) (0 ∷ []) (gap ++ back) refl),
  omega (arith, length-append gap back),
  drop_front gap back,
)

pub drop_past :
    (front event back : Bytes) (k : ℕ)
    → drop (length front + (length event + k)) (front ++ (event ++ back)) ≡ drop k back
drop_past front event back k = rw (
  drop-add (length front) (length event + k) (front ++ (event ++ back)),
  drop_front front (event ++ back),
  drop-add (length event) k (event ++ back),
  drop_front event back,
)
