-- ===== src/MainWs/Session/Counted.antt =====
-- Ids that are counted from 1, and the keepalives of a round, which keep the count.
use sigchat.Base.{
  ℕ, zero, suc, ◌+◌, ◌%◌, ◌^◌, ◌≡◌, refl, ◌∙◌, ap, sym, subst, List, [], ◌∷◌, ◌++◌, append_assoc,
  append-nil, Option, none, some, unwrap_or, arith, leb, ◌-◌, if_cases,
}
use sigchat.MainWs.Proto.{WsRequest}
use sigchat.MainWs.World.{Frame, ping, binary}
use sigchat.MainWs.Session.{
  Round, Timers, Flow, go_on, leave, Sent, sent_at, send_failed, app_keepalive_ms, keepalive_ms,
  ws_keepalive, app_keepalive_step, keepalives, keepalives_after,
}

-- The ids of the requests among the frames, in order.
abbrev pub request_id : Option WsRequest → List ℕ
request_id none = []
request_id (some req) = unwrap_or req.id 0 ∷ []

abbrev pub request_ids : List Frame → List ℕ
request_ids [] = []
request_ids (ping ∷ frames) = request_ids frames
request_ids (binary m ∷ frames) = request_id m.request ++ request_ids frames

pub request_ids-append :
    (xs ys : List Frame) → request_ids (xs ++ ys) ≡ request_ids xs ++ request_ids ys
request_ids-append [] ys = refl
request_ids-append (ping ∷ xs) ys = request_ids-append xs ys
request_ids-append (binary m ∷ xs) ys =
    ap (λ r. request_id m.request ++ r) (request_ids-append xs ys)
    ∙ sym (append_assoc (request_id m.request) (request_ids xs) (request_ids ys))

-- `k` numbers from `i` up, as u64.
abbrev pub counted : ℕ → ℕ → List ℕ
counted i zero = []
counted i (suc k) = i % 2 ^ 64 ∷ counted (suc i) k

pub counted-snoc : (i k : ℕ) → counted i k ++ (i + k) % 2 ^ 64 ∷ [] ≡ counted i (suc k)
counted-snoc i zero = ap (λ n. n % 2 ^ 64 ∷ []) (omega arith)
counted-snoc i (suc k) =
    let next : i + suc k ≡ suc i + k = omega arith in
    ap (λ n. i % 2 ^ 64 ∷ (counted (suc i) k ++ n % 2 ^ 64 ∷ [])) next
    ∙ ap (λ ns. i % 2 ^ 64 ∷ ns) (counted-snoc (suc i) k)

-- Ids counted from 1, without a gap.
abbrev pub Counted : List ℕ → Type 0
Counted ids = (k : ℕ) × (ids ≡ counted 1 k)

-- The same, with the next id behind them.
abbrev pub CountedTo : List ℕ → ℕ → Type 0
CountedTo ids next = (k : ℕ) × (ids ≡ counted 1 k) × (next ≡ (1 + k) % 2 ^ 64)

abbrev pub FlowCounted : List ℕ → Flow → Type 0
FlowCounted ids (go_on t) = CountedTo ids t.next_request_id
FlowCounted ids leave = Counted ids

pub pinged :
    (r : Sent) (t : Timers) (ids : List ℕ)
    → CountedTo ids t.next_request_id
    → FlowCounted ids
        (elim r [ sent_at now ↦ go_on (record t { last_ping_ms = now }) | send_failed ↦ leave ])
pinged (sent_at now) t ids c = c
pinged send_failed t ids (k, e, n) = (k, e)

-- The ids behind the frames of a step.
abbrev pub Behind : List ℕ → Flow × List Frame → Type 0
Behind ids step = FlowCounted (ids ++ request_ids step.1) step.0

pub ws_keepalive-Behind :
    (t : Timers) (r : Round) (ids : List ℕ)
    → CountedTo ids t.next_request_id
    → Behind ids (ws_keepalive t r)
unfolding ws_keepalive
ws_keepalive-Behind t r ids c =
    let c' = subst (λ l. CountedTo l t.next_request_id) (sym (append-nil ids)) c in
    if_cases (Behind ids) (leb keepalive_ms (r.ping_check - t.last_ping_ms))
      (λ e. pinged r.ping_sent t (ids ++ []) c') (λ e. c')

pub next_counted :
    (ids : List ℕ) (next : ℕ)
    → CountedTo ids next
    → CountedTo (ids ++ next ∷ []) ((next + 1) % 2 ^ 64)
next_counted ids next (k, e, n) = (
  suc k,
  (ap (λ l. l ++ next ∷ []) e ∙ ap (λ m. counted 1 k ++ m ∷ []) n) ∙ counted-snoc 1 k,
  omega (arith, n),
)

pub app_pinged :
    (r : Sent) (t : Timers) (ids : List ℕ)
    → CountedTo ids t.next_request_id
    → FlowCounted (ids ++ t.next_request_id ∷ []) (elim r [
      | sent_at now ↦ go_on (record t {
        last_app_keepalive_ms = now;
        next_request_id = (t.next_request_id + 1) % 2 ^ 64;
      })
      | send_failed ↦ leave
    ])
app_pinged (sent_at now) t ids c = next_counted ids t.next_request_id c
app_pinged send_failed t ids c = let (k, e, n) = next_counted ids t.next_request_id c in (k, e)

pub app_keepalive_step-Behind :
    (t : Timers) (r : Round) (ids : List ℕ)
    → CountedTo ids t.next_request_id
    → Behind ids (app_keepalive_step t r)
unfolding app_keepalive_step
app_keepalive_step-Behind t r ids c =
    if_cases (Behind ids) (leb app_keepalive_ms (r.app_check - t.last_app_keepalive_ms))
      (λ e. app_pinged r.app_sent t ids c)
      (λ e. subst (λ l. CountedTo l t.next_request_id) (sym (append-nil ids)) c)

pub keepalives_after-Behind :
    (flow : Flow) (frames : List Frame) (r : Round) (ids : List ℕ)
    → Behind ids (flow, frames)
    → Behind ids (keepalives_after (flow, frames) r)
keepalives_after-Behind leave frames r ids c = c
keepalives_after-Behind (go_on t) frames r ids c =
    let more = (app_keepalive_step t r).1 in
    subst (λ l. FlowCounted l (app_keepalive_step t r).0)
      (append_assoc ids (request_ids frames) (request_ids more)
        ∙ ap (λ l. ids ++ l) (sym (request_ids-append frames more)))
      (app_keepalive_step-Behind t r (ids ++ request_ids frames) c)

pub keepalives-Behind :
    (t : Timers) (r : Round) (ids : List ℕ)
    → CountedTo ids t.next_request_id
    → Behind ids (keepalives t r)
unfolding keepalives
keepalives-Behind t r ids c =
    keepalives_after-Behind (ws_keepalive t r).0 (ws_keepalive t r).1 r ids
      (ws_keepalive-Behind t r ids c)
