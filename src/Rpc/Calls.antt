-- ===== src/Rpc/Calls.antt =====
-- A remote call: `__method_missing` of the client and one round of `serve_forever` of the server
-- (boofuzz/monitors/pedrpc.py). Each waits for the other, so their steps alternate.
use boofuzz.Base.{
  ℕ, Bool, true, false, List, [], ◌∷◌, ◌++◌, Option, none, some, if◌then◌else◌, reverse,
}
use boofuzz.Base.Text.{Text, text_eq, starts_with, codes}
use boofuzz.Rpc.{
  Socket, Pickle, Received, value, nothing, no_pickle, rpc_error, no_end, sent, too_long,
  send_error, pickle_recv, pickle_send,
}

-- What the calls need of Python's values: None, `!=`, and the tuple of a method's name and its
-- arguments, which only such a tuple is taken apart into.
pub record Values (V A : Type 0) : Type 0 where
  pub none_value : V
  pub same : V → V → Bool
  pub call_of : Text → A → V
  pub as_call : V → Option (Text × A)

-- The attributes of a client; `new_servers` are the calls of `on_new_server`.
pub record Client (V : Type 0) : Type 0 where
  pub known_server : V
  pub new_servers : List V

-- What becomes of a requested attribute that has no definition.
pub data Route : Type 0 where
  one trampoline hot_transmit ignored remote : Route

abbrev pub ends_with : Text → Text → Bool
ends_with suffix t = starts_with (reverse suffix) (reverse t)

-- The tests at the start of `__method_missing`.
unfoldable pub route : Text → Route
route name =
    if text_eq name (codes "__bool__")
    then one
    else if ends_with (codes "__method_missing") name
    then trampoline
    else if ends_with (codes "__hot_transmit") name
    then hot_transmit
    else if starts_with (codes "__") name
    then ignored
    else remote

-- How a call ends at the client: with a value, with a BoofuzzRpcError or another exception, or never.
pub data Called (V : Type 0) : Type 0 where
  returned : V → Called V
  raised never : Called V

-- How a round ends at the server: the loop goes on, an exception leaves it, or never.
pub data Served (S : Type 0) : Type 0 where
  goes_on : S → Served S
  ended stuck : Served S

module _ {V A : Type 0} (p : Pickle V) (v : Values V A) where
  -- `if server_uuid != self.known_server: on_new_server(...); known_server = ...`.
  unfoldable pub meet : V → Client V → Client V
  meet server c =
      if v.same server c.known_server
      then c
      else record { known_server = server; new_servers = c.new_servers ++ server ∷ [] }

  -- A value that was received; where nothing was, `__pickle_recv` returned None.
  abbrev pub called : Received V → Called V
  called (value x) = returned x
  called nothing = returned v.none_value
  called no_pickle = raised
  called rpc_error = raised
  called no_end = never

  module _ {W : Type 0} (s : Socket W) where
    -- The client's first half on a fresh connection: who the server is, and then the call.
    abbrev pub after_greeting : Client V → Text → A → Called V × W → Client V × Called V × W
    after_greeting c name args (returned server, w) =
        let (how, w') = pickle_send s p (v.call_of name args) w in
        (
          meet server c,
          elim how as (λ h. Called V) [
            | sent ↦ returned v.none_value
            | too_long ↦ raised
            | send_error ↦ raised
          ],
          w',
        )
    after_greeting c name args (raised, w) = (c, raised, w)
    after_greeting c name args (never, w) = (c, never, w)

    unfoldable pub send_call : ℕ → Client V → Text → A → W → Client V × Called V × W
    send_call fuel c name args w =
        let (r, w') = pickle_recv s p fuel w in after_greeting c name args (called r, w')

    -- The client's second half: the return value.
    abbrev pub take_result : ℕ → W → Called V × W
    take_result fuel w = let (r, w') = pickle_recv s p fuel w in (called r, w')

    -- The server's first step: `self.__pickle_send(self.__instance)`, outside of any `try`.
    unfoldable pub greet : V → W → Bool × W
    greet server w =
        let (how, w') = pickle_send s p server w in
        (elim how as (λ h. Bool) [ sent ↦ true | too_long ↦ false | send_error ↦ false ], w')

    module _ {S : Type 0} (method : Text → Option (A → S → Option (V × S))) where
      -- The return value is sent; a failure to do so is ignored.
      abbrev pub answer : Option (V × S) → W → Served S × W
      answer none w = (ended, w)
      answer (some (ret, state)) w = (goes_on state, (pickle_send s p ret w).1)

      abbrev pub dispatch : Option (A → S → Option (V × S)) → A → S → W → Served S × W
      dispatch none args state w = (ended, w)
      dispatch (some f) args state w = answer (f args state) w

      abbrev pub invoke : Option (Text × A) → S → W → Served S × W
      invoke none state w = (goes_on state, w)
      invoke (some (name, args)) state w = dispatch (method name) args state w

      -- `(method_name, (args, kwargs)) = self.__pickle_recv()`, of which any exception is `continue`,
      -- and the call of the method, of which none is.
      abbrev pub serve_received : Received V → S → W → Served S × W
      serve_received (value x) state w = invoke (v.as_call x) state w
      serve_received nothing state w = (goes_on state, w)
      serve_received no_pickle state w = (goes_on state, w)
      serve_received rpc_error state w = (goes_on state, w)
      serve_received no_end state w = (stuck, w)

      unfoldable pub serve_call : ℕ → S → W → Served S × W
      serve_call fuel state w = let (r, w') = pickle_recv s p fuel w in serve_received r state w'
