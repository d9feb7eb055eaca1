-- ===== src/Rpc.antt =====
-- The framing of PED-RPC (boofuzz/monitors/pedrpc.py): a message is four bytes of length, the
-- lowest one first, and then the pickled value. The socket and pickle are given.
pub mod Frames
pub mod Closed
pub mod Calls
pub mod Attempts
use boofuzz.Base.{
  ℕ, zero, suc, ◌-◌, List, [], ◌∷◌, ◌++◌, Option, none, some, ◌==◌, if◌then◌else◌, length,
}
use boofuzz.Base.Words.{pack_little, from_little_endian}

-- A connected stream socket in a world: `recv` gives at most so many bytes, and none when the peer
-- has closed; `send` says how many bytes it took. No result is a socket.error.
pub record Socket (W : Type 0) : Type 0 where
  pub recv : ℕ → W → Option (List ℕ) × W
  pub send : List ℕ → W → Option ℕ × W

-- `pickle.dumps` and `pickle.loads`, which fails on bytes that are no pickle.
pub record Pickle (V : Type 0) : Type 0 where
  pub dumps : V → List ℕ
  pub loads : List ℕ → Option V

-- What the loop of `__pickle_recv` gives: the bytes, a socket.error, or no end.
pub data Body : Type 0 where
  whole : List ℕ → Body
  broken endless : Body

-- What `__pickle_recv` of the client gives: a value, None, the error of `pickle.loads`, a
-- BoofuzzRpcError, or no end.
pub data Received (V : Type 0) : Type 0 where
  value : V → Received V
  nothing no_pickle rpc_error no_end : Received V

-- How `__pickle_send` ends.
pub data Sent : Type 0 where
  sent too_long send_error : Sent

module _ {W : Type 0} (s : Socket W) where
  -- `while length: chunk = recv(length); received += chunk; length -= len(chunk)`.
  unfoldable pub recv_all : ℕ → ℕ → List ℕ → W → Body × W
  recv_all fuel zero received w = (whole received, w)
  recv_all zero (suc n) received w = (endless, w)
  recv_all (suc fuel) (suc n) received w =
      let (answer, w') = s.recv (suc n) w in
      elim answer as (λ o. Body × W) [
        | none ↦ (broken, w')
        | some chunk ↦ recv_all fuel (suc n - length chunk) (received ++ chunk) w'
      ]

  module _ {V : Type 0} (p : Pickle V) where
    abbrev pub loaded : Option V → Received V
    loaded none = no_pickle
    loaded (some v) = value v

    abbrev pub from_body : Body × W → Received V × W
    from_body (whole bytes, w) = (loaded (p.loads bytes), w)
    from_body (broken, w) = (rpc_error, w)
    from_body (endless, w) = (no_end, w)

    -- `struct.unpack("<L", recvd)` wants four bytes; any exception of it returns None.
    unfoldable pub from_header : ℕ → Option (List ℕ) × W → Received V × W
    from_header fuel (none, w) = (nothing, w)
    from_header fuel (some header, w) =
        let body = recv_all fuel (from_little_endian header) [] w in
        if length header == 4 then from_body body else (nothing, w)

    -- `__pickle_recv` of the client.
    unfoldable pub pickle_recv : ℕ → W → Received V × W
    pickle_recv fuel w = from_header fuel (s.recv 4 w)

    abbrev pub sent_body : Option ℕ × W → Sent × W
    sent_body (none, w) = (send_error, w)
    sent_body (some n, w) = (sent, w)

    abbrev pub sent_header : List ℕ → Option ℕ × W → Sent × W
    sent_header bytes (none, w) = (send_error, w)
    sent_header bytes (some n, w) = sent_body (s.send bytes w)

    abbrev pub send_frame : List ℕ → Option (List ℕ) → W → Sent × W
    send_frame bytes none w = (too_long, w)
    send_frame bytes (some header) w = sent_header bytes (s.send header w)

    -- `__pickle_send`; `struct.pack` refuses a length that four bytes do not hold.
    unfoldable pub pickle_send : V → W → Sent × W
    pickle_send v w = send_frame (p.dumps v) (pack_little 4 (length (p.dumps v))) w
