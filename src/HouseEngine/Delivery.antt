-- ===== src/HouseEngine/Delivery.antt =====
-- How an answer reaches the surface that asked, over a store that keeps the promises of
-- `KeepsSlots`: request by request, piece by piece.
use alice_llm_bridge.Base.{
  suc, if◌then◌else◌, ◌≡◌, refl, sym, ap, ◌∙◌, subst, none, some, List, [], ◌∷◌, ◌++◌, arith,
  concat, is_empty, length, All,
}
use alice_llm_bridge.Base.Text.{Text}
use alice_llm_bridge.Base.Utf8.{IsText}
use alice_llm_bridge.Reply.{
  split, from_utterance, continue, continuation_suffix, shape_chunks, split_into_chunks,
}
use alice_llm_bridge.Reply.Chunks.{split_into_chunks-concat, concat-split_into_chunks}
use alice_llm_bridge.Reply.Shaper.{HasRoom, content_limit}
use alice_llm_bridge.Reply.Valid.{split_into_chunks-IsText, shape_chunks-IsText, split-IsText}
use alice_llm_bridge.Household.{SurfaceIdentity, HouseContext, HouseholdStore, HouseRuntime}
use alice_llm_bridge.Household.Slots.{View, Effect, slot_of, KeepsSlots}
use alice_llm_bridge.HouseEngine.{
  HouseholdEngine, HouseholdInput, HouseholdReply, say, reply, next, Work, W, admit, settle,
}
use alice_llm_bridge.HouseEngine.Served.{
  own_kept, after_save, after_take, shape_and_save-eq, admit_continue,
}

-- What is spoken of an answer that was cut into these chunks, request by request.
abbrev pub spoken_all : List Text → List HouseholdReply
spoken_all [] = []
spoken_all (last ∷ []) = say last ∷ []
spoken_all (chunk ∷ more ∷ chunks) = say (chunk ++ continuation_suffix) ∷ spoken_all (more ∷ chunks)

module _ (store : HouseholdStore) (runtime : HouseRuntime) (engine : HouseholdEngine) where
  -- The requests are answered one after the other, each at once.
  pub data Hears
      : W store runtime engine
        → List HouseholdInput
        → List HouseholdReply
        → W store runtime engine
        → Type 0 where
    silence : {w : W store runtime engine} → Hears w [] [] w
    hear :
        {w v u : W store runtime engine} {input : HouseholdInput} {r : HouseholdReply}
        {inputs : List HouseholdInput} {rs : List HouseholdReply}
        → admit store runtime engine input w ≡ (reply r, v)
        → Hears v inputs rs u
        → Hears w (input ∷ inputs) (r ∷ rs) u

  -- The request comes from this surface and goes on.
  pub record GoesOn (identity : SurfaceIdentity) (input : HouseholdInput) : Type 0 where
    pub same : input.identity ≡ identity
    pub goes_on : from_utterance engine.to_lowercase input.utterance ≡ continue

module _ (store : HouseholdStore) (runtime : HouseRuntime) (engine : HouseholdEngine)
    (view : View store.State) (ks : KeepsSlots store view) (room : HasRoom engine.shaper)
    (identity : SurfaceIdentity) (house : HouseContext) where
  -- The pieces that are left, all heard in order; then nothing is kept.
  pub record HeardAll (w : W store runtime engine) (inputs : List HouseholdInput)
      (chunks : List Text) : Type 0 where
    pub final : W store runtime engine
    pub heard : Hears store runtime engine w inputs (spoken_all chunks) final
    pub nothing_kept : view.kept final.store (slot_of house identity) ≡ none
    pub works : final.works ≡ w.works
    pub server : final.server ≡ w.server

  -- cutting what is left again gives what is left
  abbrev IsStable : List Text → Type 0
  IsStable chunks = split_into_chunks (concat chunks) (content_limit engine.shaper) ≡ chunks

  IsStable-tail : (c d : Text) (cs : List Text) → IsStable (c ∷ d ∷ cs) → IsStable (d ∷ cs)
  IsStable-tail c d cs e =
      split_into_chunks-concat (content_limit engine.shaper) (omega arith) (concat (c ∷ d ∷ cs)) c d
        cs e

  split_stable :
      (chunks : List Text)
      → IsStable chunks
      → split engine.shaper (concat chunks) ≡ shape_chunks chunks
  unfolding split
  split_stable chunks e = ap shape_chunks e

  abbrev taken : W store runtime engine → store.State
  taken w = after_take store runtime engine view ks house identity w.store

  abbrev saved : List Text → W store runtime engine → W store runtime engine
  saved chunks w = record w {
    store = after_save store runtime engine view ks house identity chunks (taken w);
  }

  -- One request that goes on: the first piece is spoken, the others are kept.
  hears_one :
      (chunks : List Text) (input : HouseholdInput) (w : W store runtime engine)
      → IsStable chunks
      → All IsText chunks
      → view.house_of w.store identity ≡ some house
      → view.kept w.store (slot_of house identity) ≡ some chunks
      → GoesOn store runtime engine identity input
      → admit store runtime engine input w
        ≡ (reply (say (shape_chunks chunks).spoken), saved (shape_chunks chunks).remaining w)
  hears_one chunks input w stable valid e k on =
      subst
        (λ i. admit store runtime engine input w ≡ (
          reply (say (shape_chunks chunks).spoken),
          record w {
            store =
                after_save store runtime engine view ks house i (shape_chunks chunks).remaining
                  (after_take store runtime engine view ks house i w.store);
          },
        ))
        on.same
        (rw (split_stable chunks stable) at (
          admit_continue store runtime engine view ks input house chunks w
            (subst (λ i. view.house_of w.store i ≡ some house) (sym on.same) e)
            (subst (λ i. view.kept w.store (slot_of house i) ≡ some chunks) (sym on.same) k)
            on.goes_on
            (subst (λ r. All IsText r.remaining) (sym (split_stable chunks stable))
              (shape_chunks-IsText chunks valid))))

  take_effect :
      (w : W store runtime engine)
      → view.house_of w.store identity ≡ some house
      → Effect view w.store
          (slot_of house identity)
          (store.take_continuation house.id identity.application_id w.store)
          (view.kept w.store (slot_of house identity))
          (view.pending w.store (slot_of house identity))
          none
  take_effect w e =
      ks.take_continuation w.store (slot_of house identity)
        (ks.bound_serves w.store identity house e)

  save_effect :
      (chunks : List Text) (w : W store runtime engine)
      → All IsText chunks
      → view.house_of w.store identity ≡ some house
      → Effect view
          (taken w)
          (slot_of house identity)
          (store.save_continuation house.id identity.application_id chunks (taken w))
          tt
          (view.pending (taken w) (slot_of house identity))
          (if is_empty chunks then none else some chunks)
  save_effect chunks w valid e =
      ks.save_continuation (taken w) (slot_of house identity) chunks
        ((take_effect w e).serves _ (ks.bound_serves w.store identity house e)) valid

  hears_pieces :
      (chunk : Text) (chunks : List Text) (inputs : List HouseholdInput)
      (w : W store runtime engine)
      → IsStable (chunk ∷ chunks)
      → All IsText (chunk ∷ chunks)
      → view.house_of w.store identity ≡ some house
      → view.kept w.store (slot_of house identity) ≡ some (chunk ∷ chunks)
      → All (GoesOn store runtime engine identity) inputs
      → length inputs ≡ length (chunk ∷ chunks)
      → HeardAll w inputs (chunk ∷ chunks)
  hears_pieces chunk chunks [] w stable valid e k on n = absurd (omega arith)
  hears_pieces chunk [] (input ∷ other ∷ inputs) w stable valid e k on n = absurd (omega arith)
  hears_pieces chunk [] (input ∷ []) w stable valid e k (on, _) n = record {
    final = saved [] w;
    heard = hear (hears_one (chunk ∷ []) input w stable valid e k on) silence;
    nothing_kept = own_kept store runtime engine view ks (save_effect [] w tt e);
    works = refl;
    server = refl;
  }
  hears_pieces chunk (more ∷ chunks) (input ∷ inputs) w stable valid e k (on, rest) n =
      let later =
        hears_pieces more chunks inputs (saved (more ∷ chunks) w)
          (IsStable-tail chunk more chunks stable) valid.1
          ((save_effect (more ∷ chunks) w valid.1 e).house_of identity
            ∙ (take_effect w e).house_of identity
            ∙ e)
          (own_kept store runtime engine view ks (save_effect (more ∷ chunks) w valid.1 e)) rest
          (omega arith) in
      record {
        final = later.final;
        heard = hear (hears_one (chunk ∷ more ∷ chunks) input w stable valid e k on) later.heard;
        nothing_kept = later.nothing_kept;
        works = later.works;
        server = later.server;
      }

-- An answer of a work that ended in time, spoken to the surface that asked and to the end.
pub record Delivered (store : HouseholdStore) (runtime : HouseRuntime) (engine : HouseholdEngine)
    (view : View store.State) (ks : KeepsSlots store view) (identity : SurfaceIdentity)
    (house : HouseContext) (work : Work) (text : Text) (inputs : List HouseholdInput)
    (w : W store runtime engine) : Type 0 where
  pub first : HouseholdReply
  pub kept_state : W store runtime engine
  pub rest : List HouseholdReply
  pub final : W store runtime engine
  pub chunks : List Text
  pub answered : settle store runtime engine work (some text) w ≡ (next first, kept_state)
  pub heard : Hears store runtime engine kept_state inputs rest final
  pub spoken : first ∷ rest ≡ spoken_all chunks
  pub whole : concat chunks ≡ text
  pub nothing_kept : view.kept final.store (slot_of house identity) ≡ none
  pub same_works : final.works ≡ w.works

module _ (store : HouseholdStore) (runtime : HouseRuntime) (engine : HouseholdEngine)
    (view : View store.State) (ks : KeepsSlots store view) (room : HasRoom engine.shaper)
    (identity : SurfaceIdentity) (house : HouseContext) (work : Work)
    (same : work.house.id ≡ house.id) (w : W store runtime engine) where
  abbrev kept_from : List Text → W store runtime engine
  kept_from chunks = record w {
    store = after_save store runtime engine view ks house identity chunks w.store;
  }

  settle-eq :
      (text : Text)
      → IsText text
      → view.house_of w.store identity ≡ some house
      → work.application_id ≡ identity.application_id
      → settle store runtime engine work (some text) w ≡ (
        next (say (split engine.shaper text).spoken),
        kept_from (split engine.shaper text).remaining,
      )
  unfolding settle
  settle-eq text valid e app =
      rw (same, app)
        (shape_and_save-eq store runtime engine view ks house identity text w
          (ks.bound_serves w.store identity house e) (split-IsText engine.shaper text room valid))

  save_first :
      (chunks : List Text)
      → All IsText chunks
      → view.house_of w.store identity ≡ some house
      → Effect view w.store
          (slot_of house identity)
          (store.save_continuation house.id identity.application_id chunks w.store)
          tt
          (view.pending w.store (slot_of house identity))
          (if is_empty chunks then none else some chunks)
  save_first chunks valid e =
      ks.save_continuation w.store (slot_of house identity) chunks
        (ks.bound_serves w.store identity house e) valid

  deliver_chunks :
      (text : Text) (inputs : List HouseholdInput) (chunks : List Text)
      → split_into_chunks text (content_limit engine.shaper) ≡ chunks
      → IsText text
      → view.house_of w.store identity ≡ some house
      → work.application_id ≡ identity.application_id
      → All (GoesOn store runtime engine identity) inputs
      → suc (length inputs) ≡ length chunks
      → Delivered store runtime engine view ks identity house work text inputs w
  unfolding split
  deliver_chunks text inputs [] cut valid e app on n = absurd (omega arith)
  deliver_chunks text (input ∷ inputs) (chunk ∷ []) cut valid e app on n = absurd (omega arith)
  deliver_chunks text [] (chunk ∷ []) cut valid e app on n = record {
    first = say chunk;
    kept_state = kept_from [];
    rest = [];
    final = kept_from [];
    chunks = chunk ∷ [];
    answered = rw cut at (settle-eq text valid e app);
    heard = silence;
    spoken = refl;
    whole = rw cut at (concat-split_into_chunks (content_limit engine.shaper) (omega arith) text);
    nothing_kept = own_kept store runtime engine view ks (save_first [] tt e);
    same_works = refl;
  }
  deliver_chunks text inputs (chunk ∷ more ∷ chunks) cut valid e app on n =
      let pieces : All IsText (chunk ∷ more ∷ chunks) =
        subst (λ c. All IsText c) cut (split_into_chunks-IsText engine.shaper text room valid) in
      let later =
        hears_pieces store runtime engine view ks room identity house more chunks inputs
          (kept_from (more ∷ chunks))
          (split_into_chunks-concat (content_limit engine.shaper) (omega arith) text chunk more
            chunks cut)
          pieces.1 ((save_first (more ∷ chunks) pieces.1 e).house_of identity ∙ e)
          (own_kept store runtime engine view ks (save_first (more ∷ chunks) pieces.1 e)) on
          (omega arith) in
      record {
        first = say (chunk ++ continuation_suffix);
        kept_state = kept_from (more ∷ chunks);
        rest = spoken_all (more ∷ chunks);
        final = later.final;
        chunks = chunk ∷ more ∷ chunks;
        answered = rw cut at (settle-eq text valid e app);
        heard = later.heard;
        spoken = refl;
        whole =
            rw cut at (concat-split_into_chunks (content_limit engine.shaper) (omega arith) text);
        nothing_kept = later.nothing_kept;
        same_works = later.works;
      }

-- Over a store that keeps its promises, for a valid text and a limit with room for the question,
-- an answer that comes in time is heard whole: the surface that asked hears the first piece, each
-- of its next requests, if it goes on, is answered at once with the next piece, and with a request
-- for each piece left the pieces make up the answer; then nothing is kept and no work was started.
pub settle-Delivered :
    (store : HouseholdStore) (runtime : HouseRuntime) (engine : HouseholdEngine)
    (view : View store.State) (ks : KeepsSlots store view) (identity : SurfaceIdentity)
    (house : HouseContext) (work : Work) (w : W store runtime engine) (text : Text)
    (inputs : List HouseholdInput)
    → HasRoom engine.shaper
    → IsText text
    → view.house_of w.store identity ≡ some house
    → work.house.id ≡ house.id
    → work.application_id ≡ identity.application_id
    → All (GoesOn store runtime engine identity) inputs
    → suc (length inputs) ≡ length (split_into_chunks text (content_limit engine.shaper))
    → Delivered store runtime engine view ks identity house work text inputs w
settle-Delivered store runtime engine view ks identity house work w text inputs room valid e same
      app on n =
    deliver_chunks store runtime engine view ks room identity house work same w text inputs _ refl
      valid e app on n
