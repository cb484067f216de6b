-- ===== src/App/Calls.antt =====
-- The application with a record of what it does, in order.
use sigchat.Base.{
  ◌≡◌, ap, sym, ◌∙◌, Bool, false, List, [], ◌∷◌, ◌++◌, append_assoc, append-nil, Result, ok, err,
}
use sigchat.Text.{Bytes}
use sigchat.App.{Process}

-- A connection attempt with whether it succeeded, a start of the receive worker, and a post.
pub data Call : Type 0 where
  connected : Bool → Call
  received : Call
  posted : Bytes → Call

abbrev pub succeeded : {E : Type 0} → Result E Bool → Bool
succeeded (ok b) = b
succeeded (err e) = false

-- The process with the record beside its state.
abbrev pub recorded : Process → Process
recorded o = record o {
  State = o.State × List Call;
  adjust_heap = λ c n s. let (a, s') = o.adjust_heap c n s.0 in (a, (s', s.1));
  init_log = λ s. let (a, s') = o.init_log s.0 in (a, (s', s.1));
  register = λ s. let (a, s') = o.register s.0 in (a, (s', s.1));
  menu_add = λ s. let (a, s') = o.menu_add s.0 in (a, (s', s.1));
  new = λ s. let (a, s') = o.new s.0 in (a, (s', s.1));
  is_ready = λ s. o.is_ready s.0;
  connect = λ s. let (r, s') = o.connect s.0 in (r, (s', s.1 ++ connected (succeeded r) ∷ []));
  dialogue_set = λ s. let (a, s') = o.dialogue_set s.0 in (a, (s', s.1));
  start_receive = λ s. let (r, s') = o.start_receive s.0 in (r, (s', s.1 ++ received ∷ []));
  redraw = λ s. (o.redraw s.0, s.1);
  post = λ text s. let (r, s') = o.post text s.0 in (r, (s', s.1 ++ posted text ∷ []));
  unregister_server = λ s. let (a, s') = o.unregister_server s.0 in (a, (s', s.1));
  destroy_server = λ s. let (a, s') = o.destroy_server s.0 in (a, (s', s.1));
}

-- What a record shows of each call, in order.
abbrev pub select : {A : Type 0} → (Call → List A) → List Call → List A
select f [] = []
select f (c ∷ cs) = f c ++ select f cs

pub select-snoc :
    {A : Type 0} (f : Call → List A) (cs : List Call) (c : Call)
    → select f (cs ++ c ∷ []) ≡ select f cs ++ f c
select-snoc f [] c = append-nil (f c)
select-snoc f (d ∷ cs) c =
    ap (λ l. f d ++ l) (select-snoc f cs c) ∙ sym (append_assoc (f d) (select f cs) (f c))

-- The texts that were posted, the connections, and the receive workers.
abbrev pub text_of : Call → List Bytes
text_of (posted text) = text ∷ []
text_of (connected b) = []
text_of received = []

abbrev pub connection_of : Call → List Bool
connection_of (connected b) = b ∷ []
connection_of received = []
connection_of (posted text) = []

abbrev pub worker_of : Call → List (Unit {0})
worker_of received = tt ∷ []
worker_of (connected b) = []
worker_of (posted text) = []
