-- ===== src/Raft/Election/History.antt =====
-- The votes that one node casts over its life (pkg/raft/node.go, election.go): no two of the same term differ.
use mathlib.Core.Path.{subst}
use kv_store.Common.{
  ℕ, ◌+◌, ◌<◌, ◌≡◌, ◌≢◌, ◌⊎◌, sym, ◌∙◌, inl, inr, true, none, List, [], ◌∷◌, Bytes, arith,
}
use kv_store.Raft.Types.{Node, Role, VoteRequest, become_candidate, become_follower}
use kv_store.Raft.Persistence.{SaveOutcome, persist}
use kv_store.Raft.Election.{conclude}
use kv_store.Raft.Node.Interleaved.Elections.{conclude-IsQuiet}
use kv_store.Raft.Node.{handle_request_vote}
use kv_store.Raft.Node.Vote.{
  IsBound, FileBound, Step, vote-IsBound, persist-IsBound, granted-IsBound, bound-grants,
  Step-IsBound,
}

-- A vote: its term and its candidate.
pub record Ballot : Type 0 where
  pub term : ℕ
  pub candidate : Bytes

abbrev pub ballot : ℕ → Bytes → Ballot
ballot t c = record { term = t; candidate = c }

-- What a node with a durable file does, and the votes that it casts: it grants one, or it votes for itself as a
-- candidate whose state is saved. A campaign whose save fails casts none. The rest of startElection is the step down at
-- a response of a higher term, with its save, and the end, of which only one that makes a leader is here: another one
-- clears the vote of the node's own term. `other` is any section that leaves the term, the vote and the file alone.
pub data History (n : Node) : Node → List Ballot → Type 0 where
  fresh : History n n []
  grant :
      {m : Node} {votes : List Ballot} (out : SaveOutcome) (req : VoteRequest)
      → History n m votes
      → m.raft_store ≢ none
      → (handle_request_vote out m req).1.vote_granted ≡ true
      → History n (handle_request_vote out m req).0 (ballot req.term req.candidate_id ∷ votes)
  campaign :
      {m : Node} {votes : List Ballot} (out : SaveOutcome)
      → History n m votes
      → m.raft_store ≢ none
      → (persist out (become_candidate m)).1 ≡ true
      → History n (persist out (become_candidate m)).0 (ballot (m.term + 1) m.id ∷ votes)
  attempt :
      {m : Node} {votes : List Ballot} (out : SaveOutcome)
      → History n m votes
      → History n (persist out (become_candidate m)).0 votes
  hear :
      {m : Node} {votes : List Ballot} (out : SaveOutcome) (term : ℕ)
      → History n m votes
      → m.term < term
      → History n (persist out (become_follower m term none)).0 votes
  win :
      {m : Node} {votes : List Ballot} (quorum term count : ℕ)
      → History n m votes
      → (conclude quorum term m count).role ≡ Role.leader
      → History n (conclude quorum term m count) votes
  other :
      {m l : Node} {votes : List Ballot}
      → History n m votes
      → l.term ≡ m.term
      → l.voted_for ≡ m.voted_for
      → l.raft_store ≡ m.raft_store
      → History n l votes
  step : {m l : Node} {votes : List Ballot} → History n m votes → Step m l → History n l votes

abbrev pub Cast : ℕ → Bytes → List Ballot → Type 0
Cast t c [] = ⊥
Cast t c (b ∷ votes) = ((b.term ≡ t) × (b.candidate ≡ c)) ⊎ Cast t c votes

abbrev AllBound : List Ballot → Node → Type 0
AllBound [] n = Unit
AllBound (b ∷ votes) n = IsBound b.term b.candidate n × AllBound votes n

-- One candidate for each term.
abbrev pub OneEach : List Ballot → Type 0
OneEach votes = (t : ℕ) (c c' : Bytes) → Cast t c votes → Cast t c' votes → c ≡ c'

candidate-IsBound :
    (n : Node) (t : ℕ) (c : Bytes) → IsBound t c n → IsBound t c (become_candidate n)
unfolding become_candidate
candidate-IsBound n t c b = record { memory = ground (arith, b.memory); file = b.file }

campaign-IsBound :
    (out : SaveOutcome) (n : Node)
    → n.raft_store ≢ none
    → (persist out (become_candidate n)).1 ≡ true
    → IsBound (n.term + 1) n.id (persist out (become_candidate n)).0
unfolding persist become_candidate
campaign-IsBound out n wired ok = ground arith

follower-IsBound :
    (n : Node) (term t : ℕ) (c : Bytes)
    → n.term < term
    → IsBound t c n
    → IsBound t c (become_follower n term none)
unfolding become_follower
follower-IsBound n term t c lt b = record { memory = ground (arith, b.memory); file = b.file }

same-IsBound :
    (n m : Node) (t : ℕ) (c : Bytes)
    → m.term ≡ n.term
    → m.voted_for ≡ n.voted_for
    → m.raft_store ≡ n.raft_store
    → IsBound t c n
    → IsBound t c m
same-IsBound n m t c term vote store b = record {
  memory = ground (arith, b.memory);
  file = subst (FileBound t c) (sym store) b.file;
}

win-IsBound :
    (quorum term : ℕ) (n : Node) (count t : ℕ) (c : Bytes)
    → (conclude quorum term n count).role ≡ Role.leader
    → IsBound t c n
    → IsBound t c (conclude quorum term n count)
win-IsBound quorum term n count t c h b =
    let q = conclude-IsQuiet quorum term n count h in
    same-IsBound n (conclude quorum term n count) t c q.term q.vote q.store b

AllBound-map :
    (n m : Node) (votes : List Ballot)
    → ((t : ℕ) (c : Bytes) → IsBound t c n → IsBound t c m)
    → AllBound votes n
    → AllBound votes m
AllBound-map n m [] f a = tt
AllBound-map n m (b ∷ votes) f a = (f b.term b.candidate a.0, AllBound-map n m votes f a.1)

Cast-IsBound :
    (n : Node) (votes : List Ballot) (t : ℕ) (c : Bytes)
    → AllBound votes n
    → Cast t c votes
    → IsBound t c n
Cast-IsBound n [] t c a v = absurd v
Cast-IsBound n (b ∷ votes) t c a (inl (e, f)) =
    subst (λ (u : ℕ). IsBound u c n) e (subst (λ (d : Bytes). IsBound b.term d n) f a.0)
Cast-IsBound n (b ∷ votes) t c a (inr v) = Cast-IsBound n votes t c a.1 v

History-AllBound : {n m : Node} {votes : List Ballot} → History n m votes → AllBound votes m
History-AllBound fresh = tt
History-AllBound (grant {m} {votes} out req h wired g) = (
  granted-IsBound out m req wired g,
  AllBound-map m (handle_request_vote out m req).0 votes (λ t c b. vote-IsBound out m req t c b)
      (History-AllBound h),
)
History-AllBound (campaign {m} {votes} out h wired ok) = (
  campaign-IsBound out m wired ok,
  AllBound-map m (persist out (become_candidate m)).0 votes
      (λ t c b. persist-IsBound out (become_candidate m) t c (candidate-IsBound m t c b))
      (History-AllBound h),
)
History-AllBound (attempt {m} {votes} out h) =
    AllBound-map m (persist out (become_candidate m)).0 votes
      (λ t c b. persist-IsBound out (become_candidate m) t c (candidate-IsBound m t c b))
      (History-AllBound h)
History-AllBound (hear {m} {votes} out term h lt) =
    AllBound-map m (persist out (become_follower m term none)).0 votes
      (λ t c b.
        persist-IsBound out (become_follower m term none) t c (follower-IsBound m term t c lt b))
      (History-AllBound h)
History-AllBound (win {m} {votes} quorum term count h won) =
    AllBound-map m (conclude quorum term m count) votes
      (λ t c b. win-IsBound quorum term m count t c won b) (History-AllBound h)
History-AllBound (other {m} {l} {votes} h term vote store) =
    AllBound-map m l votes (λ t c b. same-IsBound m l t c term vote store b) (History-AllBound h)
History-AllBound (step {m} {l} {votes} h s) =
    AllBound-map m l votes (λ t c b. Step-IsBound t c s b) (History-AllBound h)

-- A new vote beside the earlier ones.
OneEach-cons :
    (b : Ballot) (votes : List Ballot)
    → ((c : Bytes) → Cast b.term c votes → c ≡ b.candidate)
    → OneEach votes
    → OneEach (b ∷ votes)
OneEach-cons b votes new old t c c' (inl (e, f)) (inl (e', f')) = sym f ∙ f'
OneEach-cons b votes new old t c c' (inl (e, f)) (inr v) =
    sym f ∙ sym (new c' (subst (λ (u : ℕ). Cast u c' votes) (sym e) v))
OneEach-cons b votes new old t c c' (inr v) (inl (e, f)) =
    new c (subst (λ (u : ℕ). Cast u c votes) (sym e) v) ∙ f
OneEach-cons b votes new old t c c' (inr v) (inr w) = old t c c' v w

pub History-OneEach : {n m : Node} {votes : List Ballot} → History n m votes → OneEach votes
History-OneEach fresh = λ t c c' v w. absurd v
History-OneEach (grant {m} {votes} out req h wired g) =
    OneEach-cons (ballot req.term req.candidate_id) votes
      (λ c v. bound-grants out m req c (Cast-IsBound m votes req.term c (History-AllBound h) v) g)
      (History-OneEach h)
History-OneEach (campaign {m} {votes} out h wired ok) =
    OneEach-cons (ballot (m.term + 1) m.id) votes
      (λ c v.
        let b = (Cast-IsBound m votes (m.term + 1) c (History-AllBound h) v).memory in
        absurd (ground arith))
      (History-OneEach h)
History-OneEach (attempt {m} {votes} out h) = History-OneEach h
History-OneEach (hear {m} {votes} out term h lt) = History-OneEach h
History-OneEach (win {m} {votes} quorum term count h won) = History-OneEach h
History-OneEach (other {m} {l} {votes} h term vote store) = History-OneEach h
History-OneEach (step {m} {l} {votes} h s) = History-OneEach h
