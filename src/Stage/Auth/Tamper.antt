-- ===== src/Stage/Auth/Tamper.antt =====
-- What stage/auth.rs detects: a checkpoint behind altered or missing frames raises the alarm,
-- unless SHA-256 collides.
use proscenium.Common.{
  ℕ, ◌≡◌, refl, sym, ap, ap₂, ◌∙◌, ◌≢◌, ◌⊎◌, inl, inr, true, false, Option, Option-cases, All, none,
  some, List, [], ◌∷◌, ◌++◌, arith, length, length-append, take, drop, Bool-cases, bytes_eq,
  bytes_eq→eq, bytes_eq_refl, take-append, drop-append,
}
use proscenium.Wire.Audio.{tag_normal, tag_checkpoint}
use proscenium.Stage.Auth.{
  Crypto, ListenerAuthState, AuthResult, tamper_detected, next_hash, verify_checkpoint,
  verify_frame, receive_frame, decode_checkpoint_payload,
}
use proscenium.Stage.Auth.Honest.{decode-checkpoint}

-- Two different inputs with one hash.
abbrev pub Collision : Crypto → Type 0
Collision c = (a : List ℕ) × (b : List ℕ) × (a ≢ b) × (c.sha256 a ≡ c.sha256 b)

-- The chain behind some frames.
abbrev pub hash_all : Crypto → List ℕ → List (List ℕ) → List ℕ
hash_all c chain [] = chain
hash_all c chain (x ∷ xs) = hash_all c (next_hash c chain x) xs

-- The listener behind some frames that carry no checkpoint.
unfoldable pub feed : Crypto → List (List ℕ) → ListenerAuthState → ListenerAuthState
feed c [] l = l
feed c (x ∷ xs) l = feed c xs (receive_frame c (tag_normal, x) l).1

pub record IsVerified (hash : List ℕ) (l : ListenerAuthState) : Type 0 where
  pub verified : l.verified ≡ true
  pub calm : l.compromised ≡ false
  pub chain : l.chain_hash ≡ hash

feed-IsVerified :
    (c : Crypto) (xs : List (List ℕ)) (chain : List ℕ) (l : ListenerAuthState)
    → IsVerified chain l
    → IsVerified (hash_all c chain xs) (feed c xs l)
unfolding feed receive_frame verify_frame verify_checkpoint
feed-IsVerified c [] chain l v = v
feed-IsVerified c (x ∷ xs) chain l v =
    feed-IsVerified c xs (next_hash c chain x) (receive_frame c (tag_normal, x) l).1 (ground arith)

-- Frames that lead to one hash are the same frames.
agree :
    (c : Crypto) (hash_length : (m : List ℕ) → length (c.sha256 m) ≡ 32) (xs ys : List (List ℕ))
    (a b : List ℕ)
    → length a ≡ 32
    → length b ≡ 32
    → length xs ≡ length ys
    → hash_all c a xs ≡ hash_all c b ys
    → ((a ≡ b) × (xs ≡ ys)) ⊎ Collision c
agree c hl [] [] a b la lb n e = inl (e, refl)
agree c hl [] (y ∷ ys) a b la lb n e = absurd (omega arith)
agree c hl (x ∷ xs) [] a b la lb n e = absurd (omega arith)
agree c hl (x ∷ xs) (y ∷ ys) a b la lb n e =
    elim (agree c hl xs ys (next_hash c a x) (next_hash c b y) (hl _) (hl _) (omega arith) e) [
      | inr clash ↦ inr clash
      | inl (same, rest) ↦ elim (Bool-cases (bytes_eq (a ++ x) (b ++ y))) [
        | inr differ ↦ inr (a ++ x, b ++ y, λ q. differs q differ, same)
        | inl equal ↦
            let q = bytes_eq→eq (a ++ x) (b ++ y) equal in
            inl (
              sym (take-append 32 a x la) ∙ ap (take 32) q ∙ take-append 32 b y lb,
              ap₂ ◌∷◌ (sym (drop-append 32 a x la) ∙ ap (drop 32) q ∙ drop-append 32 b y lb) rest,
            )
      ]
    ]
  where
    differs : a ++ x ≡ b ++ y → bytes_eq (a ++ x) (b ++ y) ≡ false → ⊥
    differs q d = ground (arith, ap (bytes_eq (a ++ x)) q, bytes_eq_refl (a ++ x))

hash_all-snoc :
    (c : Crypto) (xs : List (List ℕ)) (w chain : List ℕ)
    → hash_all c chain (xs ++ (w ∷ [])) ≡ next_hash c (hash_all c chain xs) w
hash_all-snoc c [] w chain = refl
hash_all-snoc c (x ∷ xs) w chain = hash_all-snoc c xs w (next_hash c chain x)

length-snoc :
    (xs ys : List (List ℕ)) (w z : List ℕ)
    → length xs ≡ length ys
    → length (xs ++ (w ∷ [])) ≡ length (ys ++ (z ∷ []))
length-snoc xs ys w z n = omega (arith, length-append xs (w ∷ []), length-append ys (z ∷ []))

module _ (c : Crypto) (hash_length : (m : List ℕ) → length (c.sha256 m) ≡ 32)
    (sign_length : (k : ℕ) (m : List ℕ) → length (c.sign k m) ≡ 64) where
  -- A checkpoint over another chain than the listener's raises the alarm.
  checkpoint_alarm :
      (opus hash : List ℕ) (key : ℕ) (chain : List ℕ) (l : ListenerAuthState)
      → IsVerified chain l
      → length hash ≡ 32
      → (next_hash c chain opus ≡ hash)
        ⊎ ((receive_frame c (tag_checkpoint, hash ++ (c.sign key hash ++ opus)) l).0
            ≡ some tamper_detected)
  unfolding receive_frame verify_frame verify_checkpoint
  checkpoint_alarm opus hash key chain l v hl =
      let d = decode-checkpoint hash (c.sign key hash) opus hl (sign_length key hash) in
      elim (Bool-cases (bytes_eq (next_hash c chain opus) hash)) [
        | inl equal ↦ inl (bytes_eq→eq (next_hash c chain opus) hash equal)
        | inr differ ↦ inr (ground (arith, d))
      ]

  -- A verified listener holds the host's chain. The host sends the frames xs and then a
  -- checkpoint with frame w, and the listener gets as many frames ys and then z with the host's
  -- hash and signature. Then the frames are the same, or the listener reports tampering at the
  -- checkpoint, or SHA-256 collides.
  pub tamper_alarm :
      (xs ys : List (List ℕ)) (w z chain : List ℕ) (key : ℕ) (l : ListenerAuthState)
      → IsVerified chain l
      → length chain ≡ 32
      → length xs ≡ length ys
      → let hash = hash_all c chain (xs ++ (w ∷ [])) in
        ((xs ++ (w ∷ []) ≡ ys ++ (z ∷ []))
          ⊎ ((receive_frame c (tag_checkpoint, hash ++ (c.sign key hash ++ z)) (feed c ys l)).0
              ≡ some tamper_detected))
        ⊎ Collision c
  tamper_alarm xs ys w z chain key l v cl n =
      let hash = hash_all c chain (xs ++ (w ∷ [])) in
      let snoc = hash_all-snoc c xs w chain in
      elim (checkpoint_alarm z hash key (hash_all c chain ys) (feed c ys l)
        (feed-IsVerified c ys chain l v) (ap length snoc ∙ hash_length _)) [
          | inr alarm ↦ inl (inr alarm)
          | inl same ↦
              elim (agree c hash_length (xs ++ (w ∷ [])) (ys ++ (z ∷ [])) chain chain cl cl
                (length-snoc xs ys w z n) (sym same ∙ sym (hash_all-snoc c ys z chain))) [
                  | inl (_, frames) ↦ inl (inl frames)
                  | inr clash ↦ inr clash
                ]
        ]

  -- A verified listener holds the host's chain and one frame without a checkpoint is lost on the
  -- way. Then the next checkpoint raises the alarm though nothing was altered, unless SHA-256
  -- maps the chain to itself or collides.
  pub lost_frame_alarm :
      (lost : List ℕ) (xs : List (List ℕ)) (w chain : List ℕ) (key : ℕ) (l : ListenerAuthState)
      → IsVerified chain l
      → length chain ≡ 32
      → let hash = hash_all c chain (lost ∷ (xs ++ (w ∷ []))) in
        ((receive_frame c (tag_checkpoint, hash ++ (c.sign key hash ++ w)) (feed c xs l)).0
          ≡ some tamper_detected)
        ⊎ ((next_hash c chain lost ≡ chain) ⊎ Collision c)
  lost_frame_alarm lost xs w chain key l v cl =
      let hash = hash_all c chain (lost ∷ (xs ++ (w ∷ []))) in
      let snoc = hash_all-snoc c xs w (next_hash c chain lost) in
      elim (checkpoint_alarm w hash key (hash_all c chain xs) (feed c xs l)
        (feed-IsVerified c xs chain l v) (ap length snoc ∙ hash_length _)) [
          | inr alarm ↦ inl alarm
          | inl same ↦
              elim (agree c hash_length (xs ++ (w ∷ [])) (xs ++ (w ∷ [])) (next_hash c chain lost)
                chain (hash_length _) cl refl (sym same ∙ sym (hash_all-snoc c xs w chain))) [
                  | inl (cycle, _) ↦ inr (inl cycle)
                  | inr clash ↦ inr (inr clash)
                ]
        ]

-- The results for frames received one after another.
pub receive_all : Crypto → List (ℕ × List ℕ) → ListenerAuthState → List (Option AuthResult)
receive_all c [] l = []
receive_all c (f ∷ fs) l = let (r, l') = receive_frame c f l in r ∷ receive_all c fs l'

refuse :
    (c : Crypto) (tag : ℕ) (payload : List ℕ) (l : ListenerAuthState)
    → l.compromised ≡ true
    → let (r, l') = receive_frame c (tag, payload) l in
      ((r ≡ some tamper_detected) ⊎ (r ≡ none)) × (l' ≡ l)
unfolding receive_frame verify_frame
refuse c tag payload l e = elim (Option-cases (decode_checkpoint_payload payload)) [
  | inl malformed ↦ ground arith
  | inr (parts, decoded) ↦ ground arith
]

-- Once a listener is compromised, every later frame is reported as tampered with or dropped as
-- malformed.
alarm_permanent :
    (c : Crypto) (frames : List (ℕ × List ℕ)) (l : ListenerAuthState)
    → l.compromised ≡ true
    → All (λ r. (r ≡ some tamper_detected) ⊎ (r ≡ none)) (receive_all c frames l)
unfolding receive_all
alarm_permanent c [] l e = tt
alarm_permanent c ((tag, payload) ∷ fs) l e =
    let (refused, same) = refuse c tag payload l e in
    (
      refused,
      alarm_permanent c fs (receive_frame c (tag, payload) l).1 (ap (λ s. s.compromised) same ∙ e),
    )
