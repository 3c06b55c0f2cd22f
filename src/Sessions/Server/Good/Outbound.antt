-- ===== src/Sessions/Server/Good/Outbound.antt =====
-- A new session, and what the application sends, keep what a session counts on
-- (src/sessions/server/mod.rs: new, send_audio and its like, send_ping_request, complete_playback).
use rtmpx.Prelude.{ℕ, ◌≡◌, refl, false, Option, none, some, List, Bool-cases, inl, inr}
use rtmpx.Prelude.Bytes.{Byte}
use rtmpx.Prelude.Map.{lookup}
use rtmpx.Time.{RtmpTimestamp}
use rtmpx.Payload.{Payload}
use rtmpx.Messages.Total.{IsTotal}
use rtmpx.Chunk.Types.{DecoderLimits}
use rtmpx.Chunk.Encoder.{EncodeOptions}
use rtmpx.Sessions.Streams.{StreamHandle}
use rtmpx.Sessions.Data.{PublishMode}
use rtmpx.Sessions.Values.{Outside}
use rtmpx.Sessions.Server.Types.{
  StreamState, created, publishing, playing, completed, ActiveStream, ServerSession,
}
use rtmpx.Sessions.Server.Send.{ensure_active, get_epoch}
use rtmpx.Sessions.Server.Commands.{is_connected_state}
use rtmpx.Sessions.Server.Output.{
  told, state_of, stream_id, state_at, stream_state, playing_id, playback_id, is_drained,
  ensure_output_drained, send_media, complete_state, complete_stream, valid_id, send_ping_request,
  complete_playback,
}
use rtmpx.Sessions.Server.Good.{IsGood, Keeps, Ends-then, Ends-call}
use rtmpx.Sessions.Server.Good.Sends.{
  from_rtmp_message-Returns, encode-Returns, serialized-Keeps, send-Keeps,
}
use rtmpx.Sessions.Server.Good.Lives.{not_publishing, set-Good}

completed_other : (key : List Byte) (mode : PublishMode) → completed ≡ publishing key mode → ⊥
completed_other key mode e = cc

module _ {V W : Type 0} (outside : Outside V W) (total : IsTotal outside.bodies) (l : DecoderLimits)
    (Granted : ℕ → List Byte → Type 0) where
  abbrev Good : ServerSession V → Type 0
  Good = IsGood outside.capacity_of l Granted

  abbrev Kept : {A : Type 0} → ServerSession V → A → Type 0
  Kept s a = Good s

  active-Keeps : (s : ServerSession V) → Good s → Keeps Good (ensure_active s)
  unfolding ensure_active
  active-Keeps s good = elim (Bool-cases s.failed) [
    | inl bad ↦ rw bad good
    | inr fine ↦ rw fine good
  ]

  drained-Keeps : (s : ServerSession V) → Good s → Keeps Good (ensure_output_drained s)
  unfolding ensure_output_drained
  drained-Keeps s good = Ends-then Good Kept Kept _ _ (active-Keeps s good) λ s' _ kept.
      elim (Bool-cases (is_drained s'.pending)) [
        | inr full ↦ rw full kept
        | inl drained ↦ rw drained (elim (Bool-cases (is_connected_state s'.current_state)) [
          | inl joined ↦ rw joined kept
          | inr apart ↦ rw apart kept
        ])
      ]

  -- A stream with a state has an id, so no `expect` panics.
  playing_id-Keeps :
      (s : ServerSession V) (h : StreamHandle) (id : Option ℕ)
      → stream_id s h ≡ id
      → Good s
      → Keeps Good (playing_id s h (state_at s id))
  playing_id-Keeps s h none there good = good
  playing_id-Keeps s h (some id) there good = go (lookup id s.active_streams)
    where
      told_good : (state : StreamState) → Keeps Good (playing_id s h (some (told state)))
      told_good created = good
      told_good (publishing key mode) = good
      told_good (playing key) = rw there good
      told_good completed = good

      go : (o : Option ActiveStream) → Keeps Good (playing_id s h (state_of o))
      go none = good
      go (some stream) = told_good stream.current_state

  playback_id-Keeps :
      (s : ServerSession V) (h : StreamHandle) → Good s → Keeps Good (playback_id s h)
  unfolding playback_id stream_state
  playback_id-Keeps s h good = playing_id-Keeps s h (stream_id s h) refl good

  pub send_media-Keeps :
      (s : ServerSession V) (h : StreamHandle) (kind : ℕ) (body : Payload) (time : RtmpTimestamp)
      (options : EncodeOptions)
      → Good s
      → Keeps Good (send_media s h kind body time options)
  unfolding send_media
  send_media-Keeps s h kind body time options good =
      Ends-then Good Kept Kept _ _ (drained-Keeps s good) λ s₁ _ good₁.
        Ends-then Good Kept Kept _ _ (playback_id-Keeps s₁ h good₁) λ s₂ id good₂.
          Ends-then Good Kept Kept _ _ (active-Keeps s₂ good₂) λ s₃ _ good₃.
            Ends-then Good Kept Kept _ _
              (Ends-call Good Kept s₃ _ _ (encode-Returns s₃.serializer _ options) good₃
                (λ _ _. good₃))
              λ s₄ r good₄. good₄

  pub ping-Keeps : (s : ServerSession V) → Good s → Keeps Good (send_ping_request outside s)
  unfolding send_ping_request get_epoch
  ping-Keeps s good = Ends-then Good Kept Kept _ _ (drained-Keeps s good) λ s₁ _ good₁.
      Ends-then Good Kept Kept _ _ (active-Keeps s₁ good₁) λ s₂ _ good₂.
        Ends-then Good Kept Kept _ _
          (Ends-call Good Kept _ _ _ (from_rtmp_message-Returns outside.bodies total _ _ 0) good₂
            (λ _ _. good₂))
          λ s₃ raw good₃.
            Ends-then Good Kept Kept _ _
              (serialized-Keeps outside total l Granted s₃ raw false false good₃)
              λ s₄ packet good₄. good₄

  complete_stream-Keeps :
      (s : ServerSession V) (id : ℕ) (o : Option ActiveStream)
      → lookup id s.active_streams ≡ o
      → Good s
      → Keeps Good (complete_stream s id o)
  unfolding complete_stream
  complete_stream-Keeps s id none there good = good
  complete_stream-Keeps s id (some stream) there good = go stream.current_state
    where
      go : (state : StreamState) → Keeps Good (complete_state s id state)
      go created = good
      go (publishing key mode) = good
      go (playing key) =
          set-Good outside.capacity_of l Granted s id stream completed good there
            (not_publishing Granted id completed completed_other)
      go completed = good

  valid_id-Keeps : (s : ServerSession V) (o : Option ℕ) → Good s → Keeps Good (valid_id s o)
  valid_id-Keeps s none good = good
  valid_id-Keeps s (some id) good = good

  pub complete-Keeps :
      (s : ServerSession V) (h : StreamHandle) → Good s → Keeps Good (complete_playback outside s h)
  unfolding complete_playback
  complete-Keeps s h good = Ends-then Good Kept Kept _ _ (drained-Keeps s good) λ s₁ _ good₁.
      Ends-then Good Kept Kept _ _ (valid_id-Keeps s₁ (stream_id s₁ h) good₁) λ s₂ id good₂.
        Ends-then Good Kept Kept _ _ (active-Keeps s₂ good₂) λ s₃ _ good₃.
          Ends-then Good Kept Kept _ _
            (complete_stream-Keeps _ id (lookup id s₃.active_streams) refl good₃)
            λ s₄ key good₄. send-Keeps outside total l Granted s₄ _ id false good₄
