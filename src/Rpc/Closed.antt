-- ===== src/Rpc/Closed.antt =====
-- A peer that closes the connection in the middle of a message.
use boofuzz.Base.{
  ℕ, zero, suc, ◌-◌, ◌<◌, ◌≡◌, ◌≢◌, refl, ap, ◌∙◌, List, [], ◌∷◌, ◌++◌, Option, some, length, arith,
  length-append, ◌⊎◌, inl, inr,
}
use boofuzz.Base.Words.{from_little_endian}
use boofuzz.Rpc.{
  Socket, Pickle, Body, whole, broken, endless, no_end, recv_all, from_body, from_header,
  pickle_recv,
}
use boofuzz.Rpc.Frames.{IsStream, recv_step}

-- After the last byte of a closed connection, `recv` gives no bytes, again and again.
abbrev pub IsClosing : {W : Type 0} → Socket W → (W → List ℕ) → Type 0
IsClosing {W} s pending = (n : ℕ) (w : W) → pending w ≡ [] → s.recv n w ≡ (some [], w)

nil-cases : (l : List ℕ) → (l ≡ []) ⊎ (l ≢ [])
nil-cases [] = inl refl
nil-cases (x ∷ l) = inr (λ e. cc)

module _ {W K : Type 0} (s : Socket W) (pending : W → List ℕ) (others : W → K)
    (stream : IsStream s pending others) (closing : IsClosing s pending) where
  -- While fewer bytes are pending than are to be read, the loop does not end.
  recv_all-endless :
      (fuel n : ℕ) (received : List ℕ) (w : W)
      → length (pending w) < n
      → (recv_all s fuel n received w).0 ≡ endless
  unfolding recv_all
  recv_all-endless fuel zero received w h = elim h [ ]
  recv_all-endless zero (suc n) received w h = refl
  recv_all-endless (suc fuel) (suc n) received w h = elim (nil-cases (pending w)) [
    | inl empty ↦
        ap (λ (x : Body × W). x.0) (recv_step s fuel n received [] w w (closing (suc n) w empty))
        ∙ recv_all-endless fuel (suc n - 0) (received ++ []) w (omega (arith, h))
    | inr bytes ↦
        let (chunk, w', read, positive, within, order, kept) =
          stream.some_bytes (suc n) w (omega arith) bytes in
        ap (λ (x : Body × W). x.0) (recv_step s fuel n received chunk w w' read)
        ∙ recv_all-endless fuel (suc n - length chunk) (received ++ chunk) w'
            (omega (arith, h, ap length order, length-append chunk (pending w')))
  ]

  -- When a read of the header has given its four bytes, and the peer closes the connection after
  -- fewer bytes than the header announces, the client reads no bytes without end: no fuel is enough
  -- for `__pickle_recv`.
  pub pickle_recv-no_end :
      {V : Type 0} (p : Pickle V)
      → (header : List ℕ) (w w' : W) → s.recv 4 w ≡ (some header, w')
      → length header ≡ 4
      → length (pending w') < from_little_endian header
      → (fuel : ℕ) → (pickle_recv s p fuel w).0 ≡ no_end
  unfolding pickle_recv from_header
  pickle_recv-no_end p header w w' read four short fuel =
      ap (λ (x : Option (List ℕ) × W). (from_header s p fuel x).0) read
      ∙ rw four (
          never (recv_all s fuel (from_little_endian header) [] w')
            (recv_all-endless fuel (from_little_endian header) [] w' short))
    where
      never : (x : Body × W) → x.0 ≡ endless → (from_body s p x).0 ≡ no_end
      never (whole bytes, w₁) h = cc
      never (broken, w₁) h = cc
      never (endless, w₁) h = refl
