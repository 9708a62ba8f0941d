-- ===== src/Framing/Drain.antt =====
-- The loop that takes frames off a buffer as long as there are any, as each connection runs it
-- behind every read from the socket.
use pico_server_rs.Base.{
  ℕ, zero, suc, ◌<◌, ◌≡◌, refl, sym, ap, ◌∙◌, List, [], ◌∷◌, ◌++◌, Option, none, some, length,
  length-append, All, arith, ◌⊎◌, inl, inr,
}
use pico_server_rs.Base.Words.{Bytes}
use pico_server_rs.Base.Read.{Read, ok, err, panic, Reader}
use pico_server_rs.Framing.{frame_or_wait}

-- A frame in front of the frames that come after it.
abbrev pub push {ℓ κ} : {E : Type ℓ} {F : Type κ} → F → Read E (List F) → Read E (List F)
push f (ok fs rest) = ok (f ∷ fs) rest
push f (err e rest) = err e rest
push f panic = panic

-- `while let Some(frame) = try_read_frame(&mut buf) { ... }`: the frames in order. A round takes a
-- byte at least, so that the length of the buffer and one more is enough fuel.
unfoldable pub drain {ℓ κ} :
    {E : Type ℓ} {F : Type κ} → (Bytes → Reader E (Option F)) → ℕ → Reader E (List F)
drain unwrap zero buf = ok [] buf
drain unwrap (suc n) buf = elim (frame_or_wait unwrap buf) [
  | ok none rest ↦ ok [] rest
  | ok (some f) rest ↦ push f (drain unwrap n rest)
  | err e rest ↦ err e rest
  | panic ↦ panic
]

-- Where two sequences are cut: inside the first, or behind it.
append_cut :
    (xs ys c d : Bytes)
    → xs ++ ys ≡ c ++ d
    → ((x : ℕ) × (back : Bytes) × (xs ≡ c ++ x ∷ back))
      ⊎ ((c' : Bytes) × (c ≡ xs ++ c') × (ys ≡ c' ++ d))
append_cut [] ys c d e = inr (c, refl, e)
append_cut (x ∷ xs) ys [] d e = inl (x, xs, refl)
append_cut (x ∷ xs) ys (y ∷ c) d e = elim (append_cut xs ys c d (cc)) [
  | inl (z, back, p) ↦ inl (z, back, cc)
  | inr (c', p, q) ↦ inr (c', cc, q)
]

module _ {ℓ κ} {E : Type ℓ} {F : Type κ} (unwrap : Bytes → Reader E (Option F)) where
  drain_wait :
      (n : ℕ) (buf : Bytes)
      → 0 < n
      → frame_or_wait unwrap buf ≡ ok none buf
      → drain unwrap n buf ≡ ok [] buf
  unfolding drain
  drain_wait zero buf h e = absurd (omega arith)
  drain_wait (suc n) buf h e = rw (e, drain)

  drain_next :
      (n : ℕ) (buf : Bytes) (f : F) (rest : Bytes)
      → frame_or_wait unwrap buf ≡ ok (some f) rest
      → drain unwrap (suc n) buf ≡ push f (drain unwrap n rest)
  unfolding drain
  drain_next n buf f rest e = rw (e, drain)

  -- A way to write frames that are read back whole, and waited on in part.
  pub record Framed {μ} (P : F → Type μ) (enc : F → Bytes) : Type (ℓ ⊔ κ ⊔ μ) where
    pub whole :
        (f : F) → P f → (rest : Bytes) → frame_or_wait unwrap (enc f ++ rest) ≡ ok (some f) rest
    pub part :
        (f : F)
        → P f
        → (front : Bytes) (x : ℕ) (back : Bytes) → enc f ≡ front ++ x ∷ back
        → frame_or_wait unwrap front ≡ ok none front

  abbrev pub encoded : (F → Bytes) → List F → Bytes
  encoded enc [] = []
  encoded enc (f ∷ fs) = enc f ++ encoded enc fs

-- What the loop gives on both sides of a cut: the frames that are whole in front of it, the part of
-- a frame that stays in the buffer, and the frames that come when the rest has arrived.
pub record CutAt {ℓ κ μ} {E : Type ℓ} {F : Type κ} (unwrap : Bytes → Reader E (Option F))
    (P : F → Type μ) (enc : F → Bytes) (n : ℕ) (fs : List F) (c d : Bytes) : Type (ℓ ⊔ κ ⊔ μ) where
  pub first : List F
  pub kept : Bytes
  pub second : List F
  pub all_frames : fs ≡ first ++ second
  pub second_all : All P second
  pub joined : kept ++ d ≡ encoded unwrap enc second
  pub before : drain unwrap n c ≡ ok first kept
  pub after : drain unwrap n (kept ++ d) ≡ ok second []

module _ {ℓ κ μ} {E : Type ℓ} {F : Type κ} (unwrap : Bytes → Reader E (Option F)) (P : F → Type μ)
    (enc : F → Bytes) (io : Framed unwrap P enc) where
  -- A buffer of whole frames gives all of them, in order, and is empty behind them.
  pub drain-encoded :
      (fs : List F) (n : ℕ)
      → All P fs
      → length fs < n
      → drain unwrap n (encoded unwrap enc fs) ≡ ok fs []
  drain-encoded fs zero hs h = absurd (omega arith)
  drain-encoded [] (suc n) hs h =
      drain_wait unwrap (suc n) [] (omega arith) (unfold frame_or_wait in refl)
  drain-encoded (f ∷ fs) (suc n) (hf, hs) h =
      drain_next unwrap n _ f (encoded unwrap enc fs) (io.whole f hf (encoded unwrap enc fs))
      ∙ ap (push f) (drain-encoded fs n hs (omega arith))

  -- Wherever the bytes of the frames are cut in two reads, both together give all the frames.
  pub drain-CutAt :
      (fs : List F) (n : ℕ) (c d : Bytes)
      → All P fs
      → length fs < n
      → encoded unwrap enc fs ≡ c ++ d
      → CutAt unwrap P enc n fs c d
  drain-CutAt fs zero c d hs h e = absurd (omega arith)
  drain-CutAt [] (suc n) [] d hs h e = record {
    first = [];
    kept = [];
    second = [];
    all_frames = refl;
    second_all = tt;
    joined = sym e;
    before = drain-encoded [] (suc n) tt (omega arith);
    after = ap (drain unwrap (suc n)) (sym e) ∙ drain-encoded [] (suc n) tt (omega arith);
  }
  drain-CutAt [] (suc n) (x ∷ c) d hs h e = cc
  drain-CutAt (f ∷ fs) (suc n) c d (hf, hs) h e =
      let behind = drain-CutAt fs n in
      elim (append_cut (enc f) (encoded unwrap enc fs) c d e) [
        | inl (x, back, p) ↦ record {
          first = [];
          kept = c;
          second = f ∷ fs;
          all_frames = refl;
          second_all = (hf, hs);
          joined = sym e;
          before = drain_wait unwrap (suc n) c (omega arith) (io.part f hf c x back p);
          after = ap (drain unwrap (suc n)) (sym e) ∙ drain-encoded (f ∷ fs) (suc n) (hf, hs) h;
        }
        | inr (c', p, q) ↦
            let cut = behind c' d hs (omega arith) q in
            record {
              first = f ∷ cut.first;
              kept = cut.kept;
              second = cut.second;
              all_frames = ap (λ (t : List F). f ∷ t) cut.all_frames;
              before =
                  ap (drain unwrap (suc n)) p
                  ∙ drain_next unwrap n _ f c' (io.whole f hf c')
                  ∙ ap (push f) cut.before;
              second_all = cut.second_all;
              joined = cut.joined;
              after =
                  ap (drain unwrap (suc n)) cut.joined
                  ∙ drain-encoded cut.second (suc n) cut.second_all
                      (omega (arith, ap length cut.all_frames, length-append cut.first cut.second));
            }
      ]
