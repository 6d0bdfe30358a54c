-- ===== src/Daemon/Dispatch.antt =====
-- The answer to one request, and the daemon after it.
use pseudoroot.Prelude.{ℕ, ◌≡◌, refl, ◌⊎◌, inl, arith}
use pseudoroot.Prelude.Bytes.{Bytes}
use pseudoroot.State.{DashMap}
use pseudoroot.Protocol.{MessageType, ping, response, error, ProtocolMessage, Wincode}
use pseudoroot.Daemon.{Daemon, dispatch, dispatch_message}

module _ {D : DashMap} (w : Wincode) where
  dispatch-answers :
      (t : MessageType) (payload : Bytes) (id : ℕ) (d : Daemon D)
      → ((dispatch w t payload id d).1.request_id ≡ id)
        × (((dispatch w t payload id d).1.message_type ≡ response)
            ⊎ ((dispatch w t payload id d).1.message_type ≡ error))
  unfolding dispatch
  dispatch-answers ping payload id d = (refl, inl refl)
  dispatch-answers t payload id d = ground arith

  dispatch-error :
      (t : MessageType) (payload : Bytes) (id : ℕ) (d : Daemon D)
      → (dispatch w t payload id d).1.message_type ≡ error
      → (dispatch w t payload id d).0 ≡ d
  unfolding dispatch
  dispatch-error ping payload id d h = refl
  dispatch-error t payload id d h = ground arith

module _ {D : DashMap} (w : Wincode) (message : ProtocolMessage) (d : Daemon D) where
  -- Every answer of dispatch_message carries the id of its request, and is a response or an
  -- error.
  pub dispatch_message-answers :
      ((dispatch_message w message d).1.request_id ≡ message.request_id)
      × (((dispatch_message w message d).1.message_type ≡ response)
          ⊎ ((dispatch_message w message d).1.message_type ≡ error))
  unfolding dispatch_message
  dispatch_message-answers =
      dispatch-answers w message.message_type message.payload message.request_id d

  -- Where dispatch_message answers with an error, the daemon is as it was.
  dispatch_message-error :
      (dispatch_message w message d).1.message_type ≡ error → (dispatch_message w message d).0 ≡ d
  unfolding dispatch_message
  dispatch_message-error h =
      dispatch-error w message.message_type message.payload message.request_id d h
