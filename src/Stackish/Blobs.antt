-- ===== src/Stackish/Blobs.antt =====
-- Blobs, which stop the driver and start it again behind their contents.
use utu.Prelude.{
  ℕ, suc, ◌+◌, ◌%◌, ◌^◌, ◌≡◌, ◌<◌, refl, ap, ◌∙◌, Bool, true, false, Option, none, some, List, [],
  ◌∷◌, ◌++◌, ◌==◌, leb, length, length-drop, drop, drop_along, arith, if◌then◌else◌, lt→ltb,
  ==_refl,
}
use utu.Stackish.Node.{Bytes, Floats, node, nil, blob}
use utu.Stackish.Tables.{Action, next}
use utu.Stackish.Parser.{Frame, Parser, Step, run_actions, perform, handle_push, read_length}
use utu.Stackish.Print.{decimal}
use utu.Stackish.Numbers.{strtoul-decimal, decimal-IsNumeral}
use utu.Stackish.Bytes.{drive-cons, drive-quiet, drive-acts, drive-mark, drive-run}
use utu.Stackish.Text.{IsNumeral, IsDigitByte}
use utu.Stackish.Tokens.{between, push_kid, at_place, goes, blk2bstr_lem}
use utu.Stackish.Sequence.{Outcome, crashed, has_error, failed_at, execute, blobs}
use utu.Stackish.Classes

-- A text that stands in a buffer ends in it.
pub fits_in :
    (p c : ℕ) (text buffer : Bytes)
    → drop p buffer ≡ c ∷ text
    → p + suc (length text) ≡ length buffer
fits_in p c text buffer e = omega (arith, length-drop p buffer, ap length e)

suc-not_zero : (n : ℕ) → (suc n == 0) ≡ false
suc-not_zero n = ground arith

lt-leb : (m n : ℕ) → m < n → leb m n ≡ true
lt-leb m n h = ground arith

abbrev ends : Parser → Bool → Step
ends u left = some (u, left)

module _ (floats : Floats) (buffer : Bytes) where
  -- From a quote to the colon behind the length, which is not read.
  drive-length :
      (tok rest : Bytes) (p k m : ℕ) (fs : List Frame)
      → IsNumeral tok
      → goes floats buffer p (b'\'' ∷ (tok ++ (b':' ∷ rest))) (between k m fs)
        ≡ goes floats buffer
            (p + 1 + length tok)
            (b':' ∷ rest)
            (record (between k (p + 1) fs) { cs = 4 })
  unfolding next
  drive-length [] rest p k m fs d = absurd d
  drive-length (c ∷ w) rest p k m fs d =
      drive-quiet floats buffer p b'\'' ((c ∷ w) ++ (b':' ∷ rest)) (between k m fs) 10 3 refl refl
        refl
      ∙ drive-mark floats buffer (p + 1) c (w ++ (b':' ∷ rest)) (between k m fs) 3 4 refl refl
          (Classes.next-length_first c d.0.0 d.0.1)
      ∙ drive-run floats buffer IsDigitByte 4 refl (λ x h. Classes.next-length_byte x h.0 h.1) w
          (b':' ∷ rest) (p + 1 + 1) (between k (p + 1) fs) d.1
      ∙ at_place floats buffer (b':' ∷ rest) _ (omega arith)

  -- The quote behind the contents, and the space behind it.
  drive-quote :
      (t rest : Bytes) (p k m n : ℕ) (f : Frame) (fs : List Frame)
      → drop m buffer ≡ t ++ (b'\'' ∷ b' ' ∷ rest)
      → p ≡ m + length t
      → goes floats buffer p
          (b'\'' ∷ b' ' ∷ rest)
          (record (between k m (f ∷ fs)) { cs = 5; more = n })
        ≡ goes floats buffer
            (p + 2)
            rest
            (between k m (push_kid (node none (blob (some t)) nil) f ∷ fs))
  unfolding next run_actions perform handle_push
  drive-quote t rest p k m n f fs e q =
      drive-acts floats buffer p b'\'' (b' ' ∷ rest) (record (between k m (f ∷ fs)) { more = n })
        done 5 10 (Action.push_blob ∷ []) refl refl
        (rw (blk2bstr_lem buffer m p t (b'\'' ∷ b' ' ∷ rest) e q) refl) refl
      ∙ drive-quiet floats buffer (p + 1) b' ' rest done 10 10 refl refl refl
      ∙ at_place floats buffer rest _ (omega arith)
    where
      done : Parser
      done = between k m (push_kid (node none (blob (some t)) nil) f ∷ fs)

  -- The action at the colon.
  read_length_lem :
      (n : ℕ) (rest : Bytes) (m q : ℕ) (s : Parser)
      → n < 2 ^ 64
      → s.mark ≡ m
      → drop m buffer ≡ decimal 20 n ++ (b':' ∷ rest)
      → q ≡ m + length (decimal 20 n)
      → read_length buffer q s
        ≡ some (
          record s { more = n; mark = q + 1; range_error = false },
          (if n == 0 then false else true),
        )
  unfolding read_length
  read_length_lem n rest m q s h k e g =
      rw (k, e, strtoul-decimal n b':' rest h refl, g, ==_refl (m + length (decimal 20 n)))
        (both (n == 0))
    where
      u : Parser
      u = record s { more = n; mark = m + length (decimal 20 n) + 1; range_error = false }

      both :
          (b : Bool)
          → (if b then ends u false else ends u true) ≡ ends u (if b then false else true)
      both true = refl
      both false = refl

  abbrev pub after : ℕ → Option Parser → Outcome
  after fuel none = crashed
  after fuel (some u) = if has_error u then failed_at u else blobs fuel floats buffer u

  pub after_lem :
      (fuel : ℕ) (o : Option Parser)
      → elim o [
        | none ↦ crashed
        | some u ↦ if has_error u then failed_at u else blobs fuel floats buffer u
      ]
        ≡ after fuel o
  after_lem fuel none = refl
  after_lem fuel (some u) = refl

  -- The driver from a place on, and the loop that skips the contents of blobs.
  abbrev pub resume : ℕ → ℕ → Bytes → Parser → Outcome
  resume fuel p bytes s = after fuel (goes floats buffer p bytes s)

  abbrev pub blob_bytes : Bytes → Bytes → Bytes
  blob_bytes t rest = b'\'' ∷ (decimal 20 (length t) ++ (b':' ∷ (t ++ (b'\'' ∷ b' ' ∷ rest))))

  behind_length :
      (t rest : Bytes) (p : ℕ)
      → drop p buffer ≡ blob_bytes t rest
      → drop (p + 1 + length (decimal 20 (length t)) + 1) buffer ≡ t ++ (b'\'' ∷ b' ' ∷ rest)
  behind_length t rest p e =
      let n = decimal 20 (length t) in
      let tail = t ++ (b'\'' ∷ b' ' ∷ rest) in
      drop_along (p + 1 + length n) (b':' ∷ []) tail buffer (
        drop_along (p + 1) n (b':' ∷ tail) buffer
          (drop_along p (b'\'' ∷ []) (n ++ (b':' ∷ tail)) buffer e))

  -- An empty blob, and the space behind it.
  pub empty_blob :
      (rest : Bytes) (p k m : ℕ) (f : Frame) (fs : List Frame)
      → drop p buffer ≡ blob_bytes [] rest
      → goes floats buffer p (blob_bytes [] rest) (between k m (f ∷ fs))
        ≡ goes floats buffer (p + (length (decimal 20 0) + 4)) rest (
            between k
              (p + 1 + length (decimal 20 0) + 1)
              (push_kid (node none (blob (some [])) nil) f ∷ fs))
  unfolding next run_actions perform
  empty_blob rest p k m f fs e =
      drive-length (decimal 20 0) (b'\'' ∷ b' ' ∷ rest) p k m (f ∷ fs) (decimal-IsNumeral 19 0)
      ∙ drive-acts floats buffer q b':' (b'\'' ∷ b' ' ∷ rest) (between k (p + 1) (f ∷ fs))
          (record (between k (q + 1) (f ∷ fs)) { cs = 5 }) 4 5 (Action.blob_length ∷ []) refl refl
          (rw
            (
              run_actions,
              perform,
              read_length_lem 0 (b'\'' ∷ b' ' ∷ rest) (p + 1) q
                  (record (between k (p + 1) (f ∷ fs)) { cs = 5 }) (omega arith) refl
                  (drop_along p (b'\'' ∷ []) _ buffer e) refl,
            )
            refl)
          refl
      ∙ drive-quote [] rest (q + 1) k (q + 1) 0 f fs (behind_length [] rest p e) (omega arith)
      ∙ at_place floats buffer rest _ (omega arith)
    where
      q : ℕ
      q = p + 1 + length (decimal 20 0)

  -- At the colon behind a length above 0 the driver stops.
  stops_at_length :
      (c : ℕ) (t rest : Bytes) (p k m : ℕ) (f : Frame) (fs : List Frame)
      → length (c ∷ t) < 2 ^ 63
      → drop p buffer ≡ blob_bytes (c ∷ t) rest
      → goes floats buffer p (blob_bytes (c ∷ t) rest) (between k m (f ∷ fs)) ≡ (
          let q = p + 1 + length (decimal 20 (length (c ∷ t))) in
          some (record (between q (q + 1) (f ∷ fs)) { cs = 5; more = length (c ∷ t) }))
  unfolding next run_actions perform
  stops_at_length c t rest p k m f fs h e =
      drive-length digits tail p k m (f ∷ fs) (decimal-IsNumeral 19 (length (c ∷ t)))
      ∙ drive-cons floats buffer q b':' tail (between k (p + 1) (f ∷ fs)) 4 5
          (Action.blob_length ∷ []) refl refl
      ∙ rw
          (
            run_actions,
            perform,
            read_length_lem (length (c ∷ t)) tail (p + 1) q
                (record (between k (p + 1) (f ∷ fs)) { cs = 5 }) (omega arith) refl
                (drop_along p (b'\'' ∷ []) _ buffer e) refl,
            suc-not_zero (length t),
          )
          refl
    where
      digits : Bytes
      digits = decimal 20 (length (c ∷ t))

      tail : Bytes
      tail = (c ∷ t) ++ (b'\'' ∷ b' ' ∷ rest)

      q : ℕ
      q = p + 1 + length digits

  -- The loop starts the driver again behind the contents.
  blobs_step :
      (fuel n q : ℕ) (bytes : Bytes) (gs : List Frame)
      → length buffer < 2 ^ 64
      → q + suc n + 1 < length buffer
      → drop (q + suc n + 1) buffer ≡ bytes
      → blobs (suc fuel) floats buffer (record (between q (q + 1) gs) { cs = 5; more = suc n })
        ≡ resume fuel (q + suc n + 1) bytes (record (between q (q + 1) gs) { cs = 5; more = suc n })
  unfolding blobs execute
  blobs_step fuel n q bytes gs l h e =
      rw
        (
          suc-not_zero n,
          lt→ltb q (length buffer) (omega arith),
          wrapped,
          lt→ltb (q + suc n + 1) (length buffer) h,
          lt-leb (q + suc n + 1) (length buffer) h,
          e,
        )
        (after_lem fuel (
          goes floats buffer (q + suc n + 1) bytes
            (record (between q (q + 1) gs) { cs = 5; more = suc n })))
    where
      wrapped : (q + suc n + 1) % 2 ^ 64 ≡ q + suc n + 1
      wrapped = omega arith

  -- A blob that is not empty, and the space behind it.
  pub full_blob :
      (fuel c : ℕ) (t rest : Bytes) (p k m : ℕ) (f : Frame) (fs : List Frame)
      → length (c ∷ t) < 2 ^ 63
      → length buffer < 2 ^ 64
      → drop p buffer ≡ blob_bytes (c ∷ t) rest
      → resume (suc fuel) p (blob_bytes (c ∷ t) rest) (between k m (f ∷ fs)) ≡ (
          let q = p + 1 + length (decimal 20 (length (c ∷ t))) in
          resume fuel
            (p + (length (decimal 20 (length (c ∷ t))) + (length (c ∷ t) + 4)))
            rest
            (between q (q + 1) (push_kid (node none (blob (some (c ∷ t))) nil) f ∷ fs)))
  full_blob fuel c t rest p k m f fs h l e =
      ap (after (suc fuel)) (stops_at_length c t rest p k m f fs h e)
      ∙ blobs_step fuel (length t) q quote (f ∷ fs) l
          (omega (arith, fits_in (q + suc (length t) + 1) b'\'' (b' ' ∷ rest) buffer at_quote))
          at_quote
      ∙ ap (after fuel) (
          drive-quote (c ∷ t) rest (q + suc (length t) + 1) q (q + 1) (suc (length t)) f fs
            (behind_length (c ∷ t) rest p e) (omega arith)
          ∙ at_place floats buffer rest _ (omega arith))
    where
      q : ℕ
      q = p + 1 + length (decimal 20 (length (c ∷ t)))

      quote : Bytes
      quote = b'\'' ∷ b' ' ∷ rest

      at_quote : drop (q + suc (length t) + 1) buffer ≡ quote
      at_quote =
          let e' : q + suc (length t) + 1 ≡ q + 1 + length (c ∷ t) = omega arith in
          ap (λ i. drop i buffer) e'
          ∙ drop_along (q + 1) (c ∷ t) quote buffer (behind_length (c ∷ t) rest p e)
