-- ===== src/Api/Playback/Ranges/Laws.antt =====
-- The ranges of a medium lie within it, and two of them that meet are the whole.
use ivrdroid.Api.Playback.Ranges.{
  end_of, blank, malformed, negative, number, absent, unsupported, without_dash, bounds,
  without_dash, unsupported, absent, bounds, AudioResponse, parsed, selected, Bound, Bytes,
  RangeHeader, drop, take, outside_recording, within_recording, parse_range, audio_response,
}
use ivrdroid.Base.{
  inr, inl, ◌∙◌, ◌⊎◌, ℕ, zero, suc, ◌+◌, ◌-◌, ◌≡◌, ◌≤◌, ◌<◌, List, [], ◌∷◌, ◌++◌, Option, none,
  some, true, ◌||◌, not, length, ltb, leb, ok, arith, refl, subst, ap, guard-eq-ok, >>=-eq-ok,
  ok-same,
}

take-drop {ℓ} : {A : Type ℓ} (n : ℕ) (xs : List A) → take n xs ++ drop n xs ≡ xs
take-drop zero xs = refl
take-drop (suc n) [] = refl
take-drop (suc n) (x ∷ xs) = ap (λ l. x ∷ l) (take-drop n xs)

length-take {ℓ} : {A : Type ℓ} (n : ℕ) (xs : List A) → n ≤ length xs → length (take n xs) ≡ n
length-take zero xs h = refl
length-take (suc n) [] h = omega (arith, h)
length-take (suc n) (x ∷ xs) h = omega (arith, length-take n xs (omega (arith, h)))

length-drop {ℓ} : {A : Type ℓ} (n : ℕ) (xs : List A) → length (drop n xs) ≡ length xs - n
length-drop zero xs = omega arith
length-drop (suc n) [] = omega arith
length-drop (suc n) (x ∷ xs) = omega (arith, length-drop n xs)

take_all {ℓ} : {A : Type ℓ} (n : ℕ) (xs : List A) → length xs ≤ n → take n xs ≡ xs
take_all zero [] h = refl
take_all zero (x ∷ xs) h = absurd (omega (arith, h))
take_all (suc n) [] h = refl
take_all (suc n) (x ∷ xs) h = ap (λ l. x ∷ l) (take_all n xs (omega (arith, h)))

-- A range that is accepted lies within the medium, from its start to its end.
pub record IsWithin (size : ℕ) (range : ℕ × ℕ) : Type 0 where
  pub ordered : range.0 ≤ range.1
  pub inside : range.1 < size

within_recording-IsWithin :
    (size start : ℕ) (end : Option ℕ) (range : ℕ × ℕ)
    → within_recording size start end ≡ ok range
    → IsWithin size range
unfolding within_recording
within_recording-IsWithin size start none range e =
    let (c, e1) = guard-eq-ok (not (leb size start || true)) outside_recording _ e in
    absurd (ground (arith, c))
within_recording-IsWithin size start (some end) range e =
    let (c, e1) = guard-eq-ok (not (leb size start || ltb end start)) outside_recording _ e in
    subst (IsWithin size) (ok-same e1)
      (record { ordered = ground (arith, c); inside = ground (arith, c) })

parsed-IsWithin :
    (size : ℕ) (first last : Bound) (range : ℕ × ℕ)
    → parsed size first last ≡ ok range
    → IsWithin size range
parsed-IsWithin size blank blank range e = cc
parsed-IsWithin size blank malformed range e = cc
parsed-IsWithin size blank negative range e = cc
parsed-IsWithin size blank (number zero) range e = cc
parsed-IsWithin size blank (number (suc n)) range e =
    within_recording-IsWithin size (size - suc n) (some (size - 1)) range e
parsed-IsWithin size malformed last range e = cc
parsed-IsWithin size negative last range e = cc
parsed-IsWithin size (number start) last range e =
    let (end, c, e1) = >>=-eq-ok (end_of size last) _ e in
    within_recording-IsWithin size start end range e1

-- The part of a medium that a range names.
pub record IsPart (media : Bytes) (range : ℕ × ℕ) (content : Bytes) : Type 0 where
  pub within : IsWithin (length media) range
  pub before : Bytes
  pub behind : Bytes
  pub split : before ++ (content ++ behind) ≡ media
  pub starts : length before ≡ range.0
  pub ends : length before + length content ≡ range.1 + 1

is_part :
    (media : Bytes) (range : ℕ × ℕ)
    → IsWithin (length media) range
    → IsPart media range (selected media (some range)).content
is_part media (start, end) w =
    let tail = drop start media in
    let size = length-drop start media in
    let front : length (take start media) ≡ start =
      length-take start media (omega (arith, w.ordered, w.inside)) in
    let middle : length (take (end + 1 - start) tail) ≡ end + 1 - start =
      length-take (end + 1 - start) tail (omega (arith, size, w.ordered, w.inside)) in
    record {
      within = w;
      before = take start media;
      behind = drop (end + 1 - start) tail;
      split =
          ap (λ l. take start media ++ l) (take-drop (end + 1 - start) tail)
          ∙ take-drop start media;
      starts = front;
      ends = omega (arith, front, middle, w.ordered);
    }

-- An answer is the whole medium with the status 200, or has the status 206 and is the part of the medium
-- from the start to the end of the range that it names, both included, and that range lies within the
-- medium.
pub audio_response-IsPart :
    (header : RangeHeader) (media : Bytes) (reply : AudioResponse)
    → audio_response header media ≡ ok reply
    → ((reply.status_code ≡ 200) × (reply.content ≡ media))
      ⊎ ((range : ℕ × ℕ) × (reply.status_code ≡ 206)
          × (reply.content_range ≡ some range)
          × IsPart media range reply.content)
unfolding audio_response parse_range
audio_response-IsPart absent media reply e =
    subst
      (λ q.
        ((q.status_code ≡ 200) × (q.content ≡ media))
        ⊎ ((range : ℕ × ℕ) × (q.status_code ≡ 206)
            × (q.content_range ≡ some range)
            × IsPart media range q.content))
      (ok-same e) (inl (refl, refl))
audio_response-IsPart unsupported media reply e = cc
audio_response-IsPart (without_dash blank) media reply e = cc
audio_response-IsPart (without_dash malformed) media reply e = cc
audio_response-IsPart (without_dash negative) media reply e = cc
audio_response-IsPart (without_dash (number n)) media reply e = cc
audio_response-IsPart (bounds first last) media reply e =
    let (chosen, c, e1) = >>=-eq-ok (parse_range (bounds first last) (length media)) _ e in
    let (range, p, e2) = >>=-eq-ok (parsed (length media) first last) _ c in
    let reply' : selected media (some range) ≡ reply =
      ap (λ r. selected media r) (ok-same e2) ∙ ok-same e1 in
    subst
      (λ q.
        ((q.status_code ≡ 200) × (q.content ≡ media))
        ⊎ ((range : ℕ × ℕ) × (q.status_code ≡ 206)
            × (q.content_range ≡ some range)
            × IsPart media range q.content))
      reply'
      (inr (
        range,
        refl,
        refl,
        is_part media range (parsed-IsWithin (length media) first last range p),
      ))
