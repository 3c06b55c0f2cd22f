-- ===== src/Messages/Total.antt =====
-- Interpreting a raw message does not panic (`to_rtmp_message` of src/messages/raw_message.rs).
use rtmpx.Prelude.{
  ℕ, Bool, true, false, List, [], ◌∷◌, Outcome, ok, err, stuck, Ensures, ensures_then,
  if◌then◌else◌, ◌==◌, arith,
}
use rtmpx.Prelude.Bytes.{Byte}
use rtmpx.Messages.Raw.{RawMessage}
use rtmpx.Messages.Message.{
  RtmpMessage, AmfEncoding, UserControlEventType, MessageDeserializationError,
}
use rtmpx.Messages.Control.{
  Fields, of_stream, of_length, of_time, fields_of, event_of, limit_of, read_u8, read_u16, read_u32,
  read_fields, deserialize_set_chunk_size, deserialize_abort, deserialize_acknowledgement,
  deserialize_window_acknowledgement_size, deserialize_set_peer_bandwidth, deserialize_user_control,
}
use rtmpx.Messages.Convert.{
  AmfBodies, read_as_amf3, tolerate, deserialize_data_tolerant, to_rtmp_message,
}

-- The call did not panic.
abbrev pub Returns : {E A : Type 0} → Outcome E A → Type 0
Returns m = Ensures m (λ _. Unit {0})

-- The AMF codec does not panic.
pub record IsTotal {V W : Type 0} (bodies : AmfBodies V W) : Type 0 where
  pub writes_command :
      (name : List Byte) (id : ℕ) (command : V) (more : List V)
      → Returns (bodies.write_amf0_command name id command more)
  pub writes_data : (values : List V) → Returns (bodies.write_amf0_data values)
  pub writes_command3 :
      (name : List Byte) (id : ℕ) (command : W) (more : List W) (format : AmfEncoding)
      → Returns (bodies.write_amf3_command name id command more format)
  pub writes_data3 :
      (values : List W) (format : AmfEncoding) → Returns (bodies.write_amf3_data values format)
  pub reads_command : (body : List Byte) → Returns (bodies.read_amf0_command body)
  pub reads_data : (body : List Byte) → Returns (bodies.read_amf0_data body)
  pub reads_command3 : (body : List Byte) → Returns (bodies.read_amf3_command body)
  pub reads_data3 : (body : List Byte) → Returns (bodies.read_amf3_data body)
  pub reads_values3 : (body : List Byte) → Returns (bodies.read_amf3_values body)

read_u8-Returns : (body : List Byte) → Returns (read_u8 body)
unfolding read_u8
read_u8-Returns [] = tt
read_u8-Returns (a ∷ rest) = tt

read_u16-Returns : (body : List Byte) → Returns (read_u16 body)
unfolding read_u16
read_u16-Returns [] = tt
read_u16-Returns (a ∷ []) = tt
read_u16-Returns (a ∷ b ∷ rest) = tt

read_u32-Returns : (body : List Byte) → Returns (read_u32 body)
unfolding read_u32
read_u32-Returns [] = tt
read_u32-Returns (a ∷ []) = tt
read_u32-Returns (a ∷ b ∷ []) = tt
read_u32-Returns (a ∷ b ∷ c ∷ []) = tt
read_u32-Returns (a ∷ b ∷ c ∷ d ∷ rest) = tt

limit_of-Returns : (code : ℕ) → Returns (limit_of code)
limit_of-Returns code = ground arith

event_of-Returns : (code : ℕ) → Returns (event_of code)
event_of-Returns code = ground arith

either :
    {E A : Type 0} (b : Bool) (x y : Outcome E A)
    → Returns x
    → Returns y
    → Returns (if b then x else y)
either true x y one two = one
either false x y one two = two

module _ (V W : Type 0) where
  chunk_size-Returns :
      (body : List Byte) → Returns (deserialize_set_chunk_size {V = V} {W = W} body)
  unfolding deserialize_set_chunk_size
  chunk_size-Returns body =
      ensures_then (λ _. Unit {0}) (read_u32 body) _ (read_u32-Returns body) λ r _. ground arith

  abort-Returns : (body : List Byte) → Returns (deserialize_abort {V = V} {W = W} body)
  unfolding deserialize_abort
  abort-Returns body =
      ensures_then (λ _. Unit {0}) (read_u32 body) _ (read_u32-Returns body) λ r _. tt

  acknowledgement-Returns :
      (body : List Byte) → Returns (deserialize_acknowledgement {V = V} {W = W} body)
  unfolding deserialize_acknowledgement
  acknowledgement-Returns body =
      ensures_then (λ _. Unit {0}) (read_u32 body) _ (read_u32-Returns body) λ r _. tt

  window-Returns :
      (body : List Byte) → Returns (deserialize_window_acknowledgement_size {V = V} {W = W} body)
  unfolding deserialize_window_acknowledgement_size
  window-Returns body =
      ensures_then (λ _. Unit {0}) (read_u32 body) _ (read_u32-Returns body) λ r _. tt

  bandwidth-Returns :
      (body : List Byte) → Returns (deserialize_set_peer_bandwidth {V = V} {W = W} body)
  unfolding deserialize_set_peer_bandwidth
  bandwidth-Returns body =
      ensures_then (λ _. Unit {0}) (read_u32 body) _ (read_u32-Returns body)
        λ size _.
          ensures_then (λ _. Unit {0}) (read_u8 size.1) _ (read_u8-Returns size.1)
            λ code _.
              ensures_then (λ _. Unit {0}) (limit_of code.0) _ (limit_of-Returns code.0)
                λ kind _. tt

  fields-Returns :
      (fields : Fields) (event : UserControlEventType) (body : List Byte)
      → Returns (read_fields {V = V} {W = W} fields event body)
  unfolding read_fields
  fields-Returns of_stream event body =
      ensures_then (λ _. Unit {0}) (read_u32 body) _ (read_u32-Returns body) λ r _. tt
  fields-Returns of_time event body =
      ensures_then (λ _. Unit {0}) (read_u32 body) _ (read_u32-Returns body) λ r _. tt
  fields-Returns of_length event body =
      ensures_then (λ _. Unit {0}) (read_u32 body) _ (read_u32-Returns body)
        λ r _. ensures_then (λ _. Unit {0}) (read_u32 r.1) _ (read_u32-Returns r.1) λ q _. tt

  control-Returns : (body : List Byte) → Returns (deserialize_user_control {V = V} {W = W} body)
  unfolding deserialize_user_control
  control-Returns body =
      ensures_then (λ _. Unit {0}) (read_u16 body) _ (read_u16-Returns body)
        λ code _.
          ensures_then (λ _. Unit {0}) (event_of code.0) _ (event_of-Returns code.0)
            λ event _. fields-Returns (fields_of event) event code.1

module _ {V W : Type 0} (bodies : AmfBodies V W) (total : IsTotal bodies) where
  tolerant-Returns : (body : List Byte) → Returns (deserialize_data_tolerant bodies body)
  unfolding deserialize_data_tolerant
  tolerant-Returns body = go (bodies.read_amf0_data body) (total.reads_data body)
    where
      again :
          (first : MessageDeserializationError) (m : Outcome MessageDeserializationError (List W))
          → Returns m
          → Returns (read_as_amf3 bodies first m)
      again first (ok values) returns = tt
      again first (err e) returns = tt
      again first stuck returns = returns

      go :
          (m : Outcome MessageDeserializationError (RtmpMessage V W))
          → Returns m
          → Returns (tolerate bodies body m)
      go (ok message) returns = tt
      go (err first) returns = again first (bodies.read_amf3_values body) (total.reads_values3 body)
      go stuck returns = returns

  pub to_rtmp_message-Returns : (m : RawMessage (List Byte)) → Returns (to_rtmp_message bodies m)
  unfolding to_rtmp_message
  to_rtmp_message-Returns m =
      let t = m.type_id in
      either (t == 1) _ _ (chunk_size-Returns V W m.body) (
        either (t == 2) _ _ (abort-Returns V W m.body) (
          either (t == 3) _ _ (acknowledgement-Returns V W m.body) (
            either (t == 4) _ _ (control-Returns V W m.body) (
              either (t == 5) _ _ (window-Returns V W m.body) (
                either (t == 6) _ _ (bandwidth-Returns V W m.body) (
                  either (t == 8) _ _ tt (
                    either (t == 9) _ _ tt (
                      either (t == 15) _ _ (total.reads_data3 m.body) (
                        either (t == 16) _ _ tt (
                          either (t == 17) _ _ (total.reads_command3 m.body) (
                            either (t == 18) _ _ (tolerant-Returns m.body) (
                              either (t == 19) _ _ tt
                                (either (t == 20) _ _ (total.reads_command m.body) tt)))))))))))))
