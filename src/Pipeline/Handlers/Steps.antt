-- ===== src/Pipeline/Handlers/Steps.antt =====
-- src/Streamer.cpp, the method handlers: nothing that a handler does changes the router or a
-- limiter, and no handler crashes.
use cgi_web_server.Base.{ℕ, refl, inl, inr, Bool-cases, Option, Option-cases}
use cgi_web_server.Http.Response.{Result-cases}
use cgi_web_server.Pipeline.Handlers.{
  determine_content_type, add_bytes, chunk_response, chunk_callback, run_script, handle_script,
  handle_file, handle_get, send_head, handle_head, handle_post, handle_options, method_handler,
}
use cgi_web_server.Pipeline.Ready.Limiters.{IsReadyState}
use cgi_web_server.Pipeline.Ready.Requests.{IsReadyEnd}
use cgi_web_server.Pipeline.Streams.Keeps.{Keeps, >>>-Keeps, stream_file-Keeps, stream_output-Keeps}
use cgi_web_server.Pipeline.Streams.{Step, to_run, write, send, stream_string, stream_script}
use cgi_web_server.Pipeline.{State, World, set_response}
use cgi_web_server.Router.{
  Endpoint, EndpointMethod, Handler, get_handler, head_handler, post_handler, options_handler,
  get_resource,
}
use cgi_web_server.Text.{Bytes}

chunk_callback-Keeps : (w : World) (chunk : Bytes) (s : State) → Keeps s (chunk_callback w chunk s)
unfolding chunk_callback send write set_response
chunk_callback-Keeps w chunk s = elim (Result-cases (chunk_response w.date chunk s.txn.response)) [
  | inr (x, thrown) ↦ rw (thrown, chunk_callback) (refl, refl, refl)
  | inl ((r, text), given) ↦
      rw (given, chunk_callback)
        (>>>-Keeps s (send w text (set_response r s)) _ (refl, refl, refl)
          (λ bytes s'. (refl, refl, refl)))
]

run_script-Keeps : (w : World) (script : Bytes) (s : State) → Keeps s (run_script w script s)
unfolding run_script stream_script add_bytes
run_script-Keeps w script s =
    >>>-Keeps s (stream_script w script s.txn.request.args (chunk_callback w) s) _
      (>>>-Keeps s _ _ (refl, refl, refl)
        (λ u s'.
          stream_output-Keeps (chunk_callback w) (w.run_script script s.txn.request.args).ends 0
            (w.run_script script s.txn.request.args).chunks s' (chunk_callback-Keeps w)))
      (λ bytes s'. (refl, refl, refl))

handle_script-Keeps :
    (w : World) (endpoint : Endpoint) (s : State) → Keeps s (handle_script w endpoint s)
unfolding handle_script
handle_script-Keeps w endpoint s =
    elim (Result-cases (get_resource endpoint s.txn.request.method)) [
      | inr (x, thrown) ↦ rw (thrown, handle_script) (refl, refl, refl)
      | inl (script, found) ↦ rw (found, handle_script) (run_script-Keeps w script s)
    ]

handle_file-Keeps :
    (w : World) (route : EndpointMethod) (s : State) → Keeps s (handle_file w route s)
unfolding handle_file stream_string send write set_response add_bytes
handle_file-Keeps w route s = elim (Option-cases (determine_content_type route.resource)) [
  | inl unknown ↦ rw (unknown, handle_file) (refl, refl, refl)
  | inr (content_type, known) ↦
      rw (known, handle_file)
        (>>>-Keeps s _ _ (refl, refl, refl)
          (λ head_bytes s1.
            >>>-Keeps s1 _ _ (refl, refl, refl)
              (λ content s2.
                >>>-Keeps s2 _ _ (stream_file-Keeps w route.resource content _)
                  (λ bytes s3. (refl, refl, refl)))))
]

send_head-Keeps :
    (w : World) (endpoint : Endpoint) (route : EndpointMethod) (s : State)
    → Keeps s (send_head w endpoint route s)
unfolding send_head stream_string send write set_response add_bytes
send_head-Keeps w endpoint route s =
    >>>-Keeps s _ _ (refl, refl, refl)
      (λ r s1. >>>-Keeps s1 _ _ (refl, refl, refl) (λ bytes s2. (refl, refl, refl)))

module _ (global : Option ℕ) (w : World) (s : State) (ready : IsReadyState global s) where
  to_run-IsReadyEnd : (step : Step (Unit {0})) → Keeps s step → IsReadyEnd global (to_run step)
  to_run-IsReadyEnd (result, s') (routes, counts, logs) = rw (routes, counts) ready

  handle_get-IsReadyEnd : IsReadyEnd global (handle_get w s)
  unfolding handle_get
  handle_get-IsReadyEnd = elim (Option-cases s.txn.request.endpoint) [
    | inl missing ↦ rw (missing, handle_get) ready
    | inr (endpoint, found) ↦ elim (Option-cases s.txn.request.route) [
      | inl missing ↦ rw (found, missing, handle_get) ready
      | inr (route, routed) ↦ elim (Bool-cases route.has_script) [
        | inl script ↦
            rw (found, routed, script, handle_get)
              (to_run-IsReadyEnd (handle_script w endpoint s) (handle_script-Keeps w endpoint s))
        | inr file ↦
            rw (found, routed, file, handle_get)
              (to_run-IsReadyEnd (handle_file w route s) (handle_file-Keeps w route s))
      ]
    ]
  ]

  handle_head-IsReadyEnd : IsReadyEnd global (handle_head w s)
  unfolding handle_head
  handle_head-IsReadyEnd = elim (Option-cases s.txn.request.endpoint) [
    | inl missing ↦ rw (missing, handle_head) ready
    | inr (endpoint, found) ↦ elim (Option-cases s.txn.request.route) [
      | inl missing ↦ rw (found, missing, handle_head) ready
      | inr (route, routed) ↦ elim (Bool-cases route.has_script) [
        | inl script ↦ rw (found, routed, script, handle_head) ready
        | inr file ↦
            rw (found, routed, file, handle_head)
              (to_run-IsReadyEnd (send_head w endpoint route s)
                (send_head-Keeps w endpoint route s))
      ]
    ]
  ]

  handle_post-IsReadyEnd : IsReadyEnd global (handle_post w s)
  unfolding handle_post
  handle_post-IsReadyEnd = elim (Option-cases s.txn.request.endpoint) [
    | inl missing ↦ rw (missing, handle_post) ready
    | inr (endpoint, found) ↦ elim (Option-cases s.txn.request.route) [
      | inl missing ↦ rw (found, missing, handle_post) ready
      | inr (route, routed) ↦ elim (Bool-cases route.has_script) [
        | inl script ↦
            rw (found, routed, script, handle_post)
              (to_run-IsReadyEnd (run_script w route.resource s)
                (run_script-Keeps w route.resource s))
        | inr file ↦ rw (found, routed, file, handle_post) ready
      ]
    ]
  ]

  handle_options-IsReadyEnd : IsReadyEnd global (handle_options w s)
  unfolding handle_options write set_response
  handle_options-IsReadyEnd = elim (Option-cases s.txn.request.endpoint) [
    | inl missing ↦ rw (missing, handle_options) ready
    | inr (endpoint, found) ↦ rw (found, handle_options) ready
  ]

  -- No handler crashes, and what it leaves is ready for more requests.
  pub method_handler-IsReadyEnd : (h : Handler) → IsReadyEnd global (method_handler w h s)
  unfolding method_handler
  method_handler-IsReadyEnd get_handler = handle_get-IsReadyEnd
  method_handler-IsReadyEnd head_handler = handle_head-IsReadyEnd
  method_handler-IsReadyEnd post_handler = handle_post-IsReadyEnd
  method_handler-IsReadyEnd options_handler = handle_options-IsReadyEnd
