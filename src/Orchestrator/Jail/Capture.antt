-- ===== src/Orchestrator/Jail/Capture.antt =====
-- services/mal-orchestrator/jail.go: the bounded capture of a stream.
use open_mal_lab.Common.{
  ℕ, zero, suc, ◌+◌, ◌-◌, ◌≤◌, ◌≡◌, refl, sym, ap, ◌∙◌, Bool, false, Str, List, [], ◌∷◌, ◌++◌,
  arith, ltb, ltb→lt, lt→ltb, length, take, length-append, append_assoc, Bool-cases, inl, inr,
  take_all, append-nil,
}
use open_mal_lab.Orchestrator.Jail.{CappedBuffer, write, write_all, new_buffer}

-- All that was written.
abbrev pub concat : List Str → Str
concat [] = []
concat (p ∷ ps) = p ++ concat ps

take_nil : (k : ℕ) → take {A = ℕ} k [] ≡ []
take_nil zero = refl
take_nil (suc k) = refl

take-append : (n : ℕ) (s t : Str) → take n (s ++ t) ≡ take n s ++ take (n - length s) t
take-append n [] t =
    ap (λ k. take k t) (sub_zero n) ∙ sym (ap (λ l. l ++ take (n - 0) t) (take_nil n))
  where
    sub_zero : (k : ℕ) → k ≡ k - 0
    sub_zero k = omega arith
take-append zero (b ∷ s) t = ap (λ k. take k t) (none_left (length (b ∷ s)))
  where
    none_left : (k : ℕ) → 0 ≡ 0 - k
    none_left k = omega arith
take-append (suc n) (b ∷ s) t =
    ap (λ l. b ∷ l) (take-append n s t ∙ ap (λ k. take n s ++ take k t) (less_one n (length s)))
  where
    less_one : (k l : ℕ) → k - l ≡ suc k - suc l
    less_one k l = omega arith

-- What room is left after `take n s` was written.
room_left : (n : ℕ) (s : Str) → n - length (take n s) ≡ n - length s
room_left zero s = omega arith
room_left (suc n) [] = refl
room_left (suc n) (b ∷ s) = omega (arith, room_left n s)

ltb-false : (a b : ℕ) → ltb a b ≡ false → b ≤ a
ltb-false a b h = ground arith

-- The buffer holds the first `max` bytes of `s`, and says whether there are more.
abbrev Holds : ℕ → Str → CappedBuffer → Type 0
Holds max s c = (c.max ≡ max) × (c.buf ≡ take max s) × (c.truncated ≡ ltb max (length s))

write-Holds :
    (max : ℕ) (s p : Str) (c : CappedBuffer) → Holds max s c → Holds max (s ++ p) (write c p)
unfolding write
write-Holds max s p c h = elim (Bool-cases (ltb 0 (c.max - length c.buf))) [
  | inl a ↦ elim (Bool-cases (ltb (c.max - length c.buf) (length p))) [
    | inl b ↦
        rw (a, b)
          (
            h.0,
            rw room (whole),
            sym (
                lt→ltb max (length (s ++ p))
                  (omega (arith, longer, room, ltb→lt _ _ b, ltb→lt _ _ a))),
          )
    | inr b ↦
        rw (a, b)
          (
            h.0,
            ap (λ l. c.buf ++ l) (sym (take_all (max - length s) p (fits b))) ∙ whole,
            h.2
                ∙ not_longer (omega (arith, room, ltb→lt _ _ a))
                    (omega (arith, longer, room, fits b, ltb→lt _ _ a)),
          )
  ]
  | inr a ↦ elim (Bool-cases (ltb 0 (length p))) [
    | inl b ↦
        rw (a, b)
          (
            h.0,
            full (none_left a),
            sym (lt→ltb max (length (s ++ p)) (omega (arith, longer, none_left a, ltb→lt _ _ b))),
          )
    | inr b ↦
        rw (a, b)
          (h.0, full (none_left a), h.2 ∙ ap (ltb max) (omega (arith, longer, none_written b)))
  ]
]
  where
    room : c.max - length c.buf ≡ max - length s
    room = rw (h.0, h.1) (room_left max s)

    longer : length (s ++ p) ≡ length s + length p
    longer = length-append s p

    whole : c.buf ++ take (max - length s) p ≡ take max (s ++ p)
    whole = rw take-append (ap (λ l. l ++ take (max - length s) p) h.1)

    fits : ltb (c.max - length c.buf) (length p) ≡ false → length p ≤ max - length s
    fits b = omega (arith, room, ltb-false _ _ b)

    none_left : ltb 0 (c.max - length c.buf) ≡ false → max - length s ≡ 0
    none_left a = omega (arith, room, ltb-false _ _ a)

    none_written : ltb 0 (length p) ≡ false → length p ≡ 0
    none_written b = omega (arith, ltb-false _ _ b)

    full : max - length s ≡ 0 → c.buf ≡ take max (s ++ p)
    full z = h.1 ∙ sym (append-nil (take max s)) ∙ rw take-append (rw z refl)

    not_longer :
        length s ≤ max → length (s ++ p) ≤ max → ltb max (length s) ≡ ltb max (length (s ++ p))
    not_longer x y = ground arith

write_all-Holds :
    (max : ℕ) (s : Str) (ps : List Str) (c : CappedBuffer)
    → Holds max s c
    → Holds max (s ++ concat ps) (write_all c ps)
unfolding write_all
write_all-Holds max s [] c h = rw append-nil h
write_all-Holds max s (p ∷ ps) c h =
    rw (← append_assoc) (write_all-Holds max (s ++ p) ps (write c p) (write-Holds max s p c h))

-- Whatever the writes are, and however they are cut, the buffer holds the first `max` bytes of all that was written, and says
-- that it is truncated exactly if there was more.
pub write_all_lem :
    (max : ℕ) (ps : List Str)
    → write_all (new_buffer max) ps
      ≡ record { buf = take max (concat ps); max = max; truncated = ltb max (length (concat ps)) }
write_all_lem max ps =
    let h =
      write_all-Holds max [] ps (new_buffer max) (refl, sym (take_nil max), sym (not_more max)) in
    same_buffer (write_all (new_buffer max) ps) max (take max (concat ps))
      (ltb max (length (concat ps))) h.0 h.1 h.2
  where
    not_more : (k : ℕ) → ltb k 0 ≡ false
    not_more k = ground arith

    same_buffer :
        (c : CappedBuffer) (m : ℕ) (b : Str) (t : Bool)
        → c.max ≡ m
        → c.buf ≡ b
        → c.truncated ≡ t
        → c ≡ record { buf = b; max = m; truncated = t }
    same_buffer c m b t x y z = cc
