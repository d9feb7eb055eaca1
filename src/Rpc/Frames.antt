-- ===== src/Rpc/Frames.antt =====
-- A message comes over the socket as it was sent, in whatever chunks it arrives.
use boofuzz.Base.{
  ℕ, zero, suc, ◌-◌, ◌^◌, ◌≤◌, ◌<◌, ◌≡◌, ◌≢◌, refl, ap, ap₂, sym, ◌∙◌, List, [], ◌∷◌, ◌++◌, Option,
  none, some, length, arith, length-append, append_assoc, append-nil,
}
use boofuzz.Base.Words.{little_endian, from_little_endian-little_endian, length-little_endian}
use boofuzz.Rpc.{
  Socket, Pickle, Body, whole, broken, value, recv_all, loaded, from_body, from_header, pickle_recv,
}

-- Values that pickle gives back, and that are not too long.
abbrev pub IsFaithful : {V : Type 0} → Pickle V → Type 0
IsFaithful {V} p = (v : V) → (p.loads (p.dumps v) ≡ some v) × (length (p.dumps v) < 256 ^ 4)

-- What is documented of a socket: a part of the bytes that are pending comes, in order, and at least
-- one of them. Receiving leaves alone what the other direction holds.
pub record IsStream {W K : Type 0} (s : Socket W) (pending : W → List ℕ) (others : W → K)
    : Type 0 where
  pub some_bytes :
      (n : ℕ) (w : W)
      → 0 < n
      → pending w ≢ []
      → (chunk : List ℕ) × (w' : W) × (s.recv n w ≡ (some chunk, w'))
        × (0 < length chunk)
        × (length chunk ≤ n)
        × (pending w ≡ chunk ++ pending w')
        × (others w' ≡ others w)

split_front :
    (chunk left bytes rest : List ℕ)
    → chunk ++ left ≡ bytes ++ rest
    → length chunk ≤ length bytes
    → (bytes' : List ℕ) × (bytes ≡ chunk ++ bytes') × (left ≡ bytes' ++ rest)
split_front [] left bytes rest e h = (bytes, refl, e)
split_front (c ∷ chunk) left [] rest e h = absurd (omega arith)
split_front (c ∷ chunk) left (b ∷ bytes) rest e h =
    let tails : chunk ++ left ≡ bytes ++ rest = cc in
    let heads : b ≡ c = cc in
    let (bytes', whole_eq, left_eq) = split_front chunk left bytes rest tails (omega arith) in
    (bytes', ap₂ (λ (x : ℕ) (l : List ℕ). x ∷ l) heads whole_eq, left_eq)

-- One round of the loop that receives bytes.
module _ {W : Type 0} (s : Socket W) where
  pub recv_step :
      (fuel n : ℕ) (received chunk : List ℕ) (w w' : W)
      → s.recv (suc n) w ≡ (some chunk, w')
      → recv_all s (suc fuel) (suc n) received w
        ≡ recv_all s fuel (suc n - length chunk) (received ++ chunk) w'
  unfolding recv_all
  recv_step fuel n received chunk w w' e =
      ap
        (λ (x : Option (List ℕ) × W). elim x.0 as (λ o. Body × W) [
          | none ↦ (broken, x.1)
          | some c ↦ recv_all s fuel (suc n - length c) (received ++ c) x.1
        ])
        e

module _ {W K : Type 0} (s : Socket W) (pending : W → List ℕ) (others : W → K)
    (stream : IsStream s pending others) where
  abbrev Collects : ℕ → List ℕ → List ℕ → List ℕ → W → Type 0
  Collects fuel bytes rest received w =
      (w' : W) × (recv_all s fuel (length bytes) received w ≡ (whole (received ++ bytes), w'))
      × (pending w' ≡ rest)
      × (others w' ≡ others w)

  -- A chunk that is the front of what is to be read, and then the rest.
  collect_chunk :
      (fuel n : ℕ) (bytes chunk bytes' rest received : List ℕ) (w w₁ : W)
      → length bytes ≡ suc n
      → s.recv (suc n) w ≡ (some chunk, w₁)
      → bytes ≡ chunk ++ bytes'
      → others w₁ ≡ others w
      → Collects fuel bytes' rest (received ++ chunk) w₁
      → Collects (suc fuel) bytes rest received w
  collect_chunk fuel n bytes chunk bytes' rest received w w₁ size read all kept (w', ran, left, k) =
      (
        w',
        ap (λ (m : ℕ). recv_all s (suc fuel) m received w) size
            ∙ (recv_step s fuel n received chunk w w₁ read
                ∙ (ap (λ (m : ℕ). recv_all s fuel m (received ++ chunk) w₁) count
                    ∙ (ran ∙ ap (λ (l : List ℕ). (whole l, w')) joined))),
        left,
        k ∙ kept,
      )
    where
      count : suc n - length chunk ≡ length bytes'
      count = omega (arith, size, ap length all, length-append chunk bytes')

      joined : (received ++ chunk) ++ bytes' ≡ received ++ bytes
      joined = append_assoc received chunk bytes' ∙ ap (λ (l : List ℕ). received ++ l) (sym all)

  -- The loop collects exactly the bytes that it is to read, if they come.
  pub recv_all_lem :
      (fuel : ℕ) (bytes rest received : List ℕ) (w : W)
      → length bytes ≤ fuel
      → pending w ≡ bytes ++ rest
      → Collects fuel bytes rest received w
  unfolding recv_all
  recv_all_lem zero [] rest received w h e =
      (w, ap (λ (l : List ℕ). (whole l, w)) (sym (append-nil received)), e, refl)
  recv_all_lem (suc fuel) [] rest received w h e =
      (w, ap (λ (l : List ℕ). (whole l, w)) (sym (append-nil received)), e, refl)
  recv_all_lem zero (b ∷ bytes) rest received w h e = absurd (omega arith)
  recv_all_lem (suc fuel) (b ∷ bytes) rest received w h e =
      next (recv_all_lem fuel) (stream.some_bytes (suc (length bytes)) w (omega arith) (λ n. cc))
    where
      next :
          ((bytes' rest' received' : List ℕ) (w' : W)
            → length bytes' ≤ fuel
            → pending w' ≡ bytes' ++ rest'
            → Collects fuel bytes' rest' received' w')
          → ((chunk : List ℕ) × (w' : W) × (s.recv (suc (length bytes)) w ≡ (some chunk, w'))
              × (0 < length chunk)
              × (length chunk ≤ suc (length bytes))
              × (pending w ≡ chunk ++ pending w')
              × (others w' ≡ others w))
          → Collects (suc fuel) (b ∷ bytes) rest received w
      next ih (chunk, w₁, read, positive, within, order, kept) =
          let (bytes', all, left) =
            split_front chunk (pending w₁) (b ∷ bytes) rest (sym order ∙ e) within in
          collect_chunk fuel (length bytes) (b ∷ bytes) chunk bytes' rest received w w₁ refl read
            all kept
            (ih bytes' rest (received ++ chunk) w₁
              (omega (arith, h, positive, ap length all, length-append chunk bytes')) left)

  module _ {V : Type 0} (p : Pickle V) (faithful : IsFaithful p) where
    -- On a stream socket, with values that pickle gives back and that take less than 2^32 bytes: when
    -- a read has given the four bytes of a value's length at once, and the bytes of the value are
    -- pending behind them, the value is received, in whatever chunks its bytes come, and whatever
    -- follows them stays pending; fuel for each of the bytes is enough.
    pub pickle_recv-frame :
        (fuel : ℕ) (v : V) (rest : List ℕ) (w w₁ : W)
        → length (p.dumps v) ≤ fuel
        → s.recv 4 w ≡ (some (little_endian 4 (length (p.dumps v))), w₁)
        → pending w₁ ≡ p.dumps v ++ rest
        → (w' : W) × (pickle_recv s p fuel w ≡ (value v, w'))
          × (pending w' ≡ rest)
          × (others w' ≡ others w₁)
    unfolding pickle_recv from_header
    pickle_recv-frame fuel v rest w w₁ enough read pending₁ =
        let (w₂, ran, left, kept') = recv_all_lem fuel (p.dumps v) rest [] w₁ enough pending₁ in
        (w₂, ap (from_header s p fuel) read ∙ received w₂ ran, left, kept')
      where
        header : List ℕ
        header = little_endian 4 (length (p.dumps v))

        received :
            (w₂ : W)
            → recv_all s fuel (length (p.dumps v)) [] w₁ ≡ (whole (p.dumps v), w₂)
            → from_header s p fuel (some header, w₁) ≡ (value v, w₂)
        received w₂ ran = rw (length-little_endian 4 (length (p.dumps v))) (
            ap (λ (n : ℕ). from_body s p (recv_all s fuel n [] w₁))
              (from_little_endian-little_endian 4 (length (p.dumps v)) (faithful v).1)
            ∙ (ap (from_body s p) ran ∙ ap (λ (o : Option V). (loaded s p o, w₂)) (faithful v).0))
