-- ===== src/Sessions/Server/Deleted.antt =====
-- What deleteStream leaves of a stream that was only created (src/sessions/server/mod.rs:
-- handle_command_delete_stream).
use rtmpx.Prelude.{ℕ, ◌≡◌, refl, ap, ◌∙◌, not, Option, none, some, List, [], ◌∷◌, if◌then◌else◌, ok}
use rtmpx.Prelude.Bytes.{Byte}
use rtmpx.Prelude.Map
use rtmpx.Prelude.Map.{
  Map, IsDistinct, lookup, lookup-insert_self, lookup-insert_ne, lookup-remove_self,
  insert-IsDistinct,
}
use rtmpx.Sessions.Streams.{StreamHandle, find}
use rtmpx.Sessions.Values.{Outside}
use rtmpx.Sessions.Server.Types.{created, SessionState, connected, ServerSession}
use rtmpx.Sessions.Server.Send.{Ran, ◌>>=◌}
use rtmpx.Sessions.Server.Commands.{
  Outputs, is_connected_state, with_argument, deleted_id, forget_handle, delete_id, delete_stream,
  finished, withdraw, handle_command_delete_stream,
}

module _ {V W : Type 0} (outside : Outside V W) where
  -- Deleting a stream that was just created.
  forget_handle-active_streams :
      (s : ServerSession V) (o : Option StreamHandle)
      → (forget_handle s o).active_streams ≡ s.active_streams
  forget_handle-active_streams s none = refl
  forget_handle-active_streams s (some h) = refl

  delete_id-lookup :
      (s : ServerSession V) (app : List Byte) (id : ℕ)
      → IsDistinct s.active_streams
      → lookup id s.active_streams ≡ some (record { current_state = created })
      → lookup id (delete_id s app (some id)).0.active_streams ≡ none
  unfolding delete_stream finished ◌>>=◌
  delete_id-lookup s app id distinct there =
      let s₁ : ServerSession V = record s {
        active_streams = Map.remove id s.active_streams;
        outstanding_requests = withdraw id s.outstanding_requests;
      } in
      rw there (
        ap (λ m. lookup id m) (forget_handle-active_streams s₁ (find s.stream_handles id))
        ∙ lookup-remove_self id s.active_streams distinct)

  guarded :
      (s : ServerSession V) (state : SessionState) (name : Option (List Byte)) (app : List Byte)
      (v : V) (f : List Byte → V → Ran V (Outputs V))
      → state ≡ connected
      → name ≡ some app
      → (if not (is_connected_state state) then (s, ok []) else with_argument s name (v ∷ []) f)
        ≡ f app v
  guarded s state name app v f active named = rw (active, named) refl

  pub delete_stream-lookup :
      (s : ServerSession V) (app : List Byte) (v : V) (id : ℕ)
      → s.current_state ≡ connected
      → s.connected_app_name ≡ some app
      → deleted_id (outside.view v) ≡ some id
      → IsDistinct s.active_streams
      → lookup id s.active_streams ≡ some (record { current_state = created })
      → lookup id (handle_command_delete_stream outside s (v ∷ [])).0.active_streams ≡ none
  unfolding handle_command_delete_stream
  delete_stream-lookup s app v id active named read distinct there =
      let from : Option ℕ → Ran V (Outputs V) = λ o. delete_id s app o in
      ap (λ (r : Ran V (Outputs V)). lookup id r.0.active_streams)
        (guarded s s.current_state s.connected_app_name app v
            (λ name w. delete_id s name (deleted_id (outside.view w))) active named
          ∙ ap from read)
      ∙ delete_id-lookup s app id distinct there
