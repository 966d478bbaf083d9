-- ===== src/Middleware/Logging/Laws.antt =====
-- internal/middleware/logging.go: the status that is logged and what reaches the writer
-- beneath.
use go_prod_change_registry.Prelude.{
  ℕ, String, true, List, [], ◌∷◌, ◌++◌, map, ◌≡◌, refl, sym, ap, ◌∙◌, append_assoc, append-nil,
}
use go_prod_change_registry.Middleware.Logging.{
  Sent, sent_header, sent_bytes, new_writer, write_header, write, Call, header_call, write_call,
  run,
}

-- Only the bytes of the calls.
pub bodies : List Call → List String
bodies [] = []
bodies (header_call code ∷ calls) = bodies calls
bodies (write_call b ∷ calls) = b ∷ bodies calls

-- The first call decides: its code, and 200 when it writes bytes.
pub first_status : List Call → ℕ
first_status [] = 200
first_status (header_call code ∷ calls) = code
first_status (write_call b ∷ calls) = 200

pub expected : List Call → List Sent
expected [] = []
expected (call ∷ calls) =
    sent_header (first_status (call ∷ calls)) ∷ map sent_bytes (bodies (call ∷ calls))

run-written :
    (calls : List Call) (status : ℕ) (sent : List Sent)
    → run calls (record { status = status; written = true; forwarded = sent }) ≡ record {
      status = status;
      written = true;
      forwarded = sent ++ map sent_bytes (bodies calls);
    }
unfolding run bodies write write_header
run-written [] status sent =
    ap (λ f. record { status = status; written = true; forwarded = f }) (sym (append-nil sent))
run-written (header_call code ∷ calls) status sent = run-written calls status sent
run-written (write_call b ∷ calls) status sent =
    run-written calls status (sent ++ sent_bytes b ∷ [])
    ∙ ap (λ f. record { status = status; written = true; forwarded = f })
        (append_assoc sent (sent_bytes b ∷ []) (map sent_bytes (bodies calls)))

-- Whatever calls a handler makes, what is forwarded to the writer beneath is one call for the header,
-- with the code of the first call or 200 when that call writes bytes, and then the bytes of the
-- calls in order; without a call nothing is forwarded. The status that is logged is that code, 200
-- without a call.
pub run-expected :
    (calls : List Call)
    → ((run calls new_writer).forwarded ≡ expected calls)
      × ((run calls new_writer).status ≡ first_status calls)
unfolding run expected first_status bodies write write_header
run-expected [] = (refl, refl)
run-expected (header_call code ∷ calls) = (
  ap (λ w. w.forwarded) (run-written calls code (sent_header code ∷ [])),
  ap (λ w. w.status) (run-written calls code (sent_header code ∷ [])),
)
run-expected (write_call b ∷ calls) = (
  ap (λ w. w.forwarded) (run-written calls 200 (sent_header 200 ∷ sent_bytes b ∷ [])),
  ap (λ w. w.status) (run-written calls 200 (sent_header 200 ∷ sent_bytes b ∷ [])),
)
