-- ===== src/Gateway/Batches/Requeue.antt =====
-- No intent is lost in a batch that fails.
use blindmarkets.Base.{
  ◌+◌, ◌≡◌, refl, ◌∙◌, Bool, false, ◌&&◌, List, [], ◌∷◌, Text, text_eq, text_eq_iff, text_eq_refl,
  count_where, update_where, length, length-update_where, arith,
}
use blindmarkets.Gateway.Types.{Intent, IntentStatus, Db, is_pending, is_auction}
use blindmarkets.Gateway.Table.{update_intents}
use blindmarkets.Gateway.Batches.{start_auction, requeue, in_open_batch}

abbrev pub pending_in : Text → Intent → Bool
pending_in b row = text_eq row.batch_id b && is_pending row.status

abbrev auction_in : Text → Intent → Bool
auction_in b row = text_eq row.batch_id b && is_auction row.status

auctions-start :
    (b : Text) (rows : List Intent)
    → count_where
        (auction_in b)
        (update_where (pending_in b) (λ row. record row { status = IntentStatus.auction }) rows)
      ≡ count_where (in_open_batch b) rows
unfolding count_where update_where
auctions-start b [] = refl
auctions-start b (row ∷ rows) = ground (arith, auctions-start b rows)

pending-start :
    (b b' : Text) (rows : List Intent)
    → text_eq b b' ≡ false
    → count_where
        (pending_in b')
        (update_where (pending_in b) (λ row. record row { status = IntentStatus.auction }) rows)
      ≡ count_where (pending_in b') rows
unfolding count_where update_where
pending-start b b' [] h = refl
pending-start b b' (row ∷ rows) h = ground (
  arith,
  text_eq_iff row.batch_id b,
  text_eq_iff row.batch_id b',
  text_eq_iff b b',
  pending-start b b' rows h,
)

pending-requeue :
    (b b' : Text) (rows : List Intent)
    → text_eq b b' ≡ false
    → count_where (pending_in b') (
        update_where
          (auction_in b)
          (λ row. record row { batch_id = b'; status = IntentStatus.pending })
          rows)
      ≡ count_where (auction_in b) rows + count_where (pending_in b') rows
unfolding count_where update_where
pending-requeue b b' [] h = refl
pending-requeue b b' (row ∷ rows) h = ground (
  arith,
  text_eq_iff row.batch_id b,
  text_eq_iff row.batch_id b',
  text_eq_iff b b',
  text_eq_refl b',
  pending-requeue b b' rows h,
)

none_left :
    (b b' : Text) (rows : List Intent)
    → text_eq b b' ≡ false
    → count_where (in_open_batch b) (
        update_where
          (auction_in b)
          (λ row. record row { batch_id = b'; status = IntentStatus.pending })
          (update_where (pending_in b) (λ row. record row { status = IntentStatus.auction }) rows))
      ≡ 0
unfolding count_where update_where
none_left b b' [] h = refl
none_left b b' (row ∷ rows) h =
    ground
      (arith, text_eq_iff row.batch_id b, text_eq_iff b b', text_eq_iff b' b, none_left b b' rows h)

-- Closing a batch and then failing it into another one moves all its open intents there, as pending:
-- the number pending there grows by the number that was pending or in the auction of the failed
-- batch, none of which is left in it, and no intent is added or removed.
pub requeue-start_auction :
    (b b' : Text) (db : Db)
    → text_eq b b' ≡ false
    → let db' = requeue b b' (start_auction b db) in
      (count_where (pending_in b') db'.intents
        ≡ count_where (in_open_batch b) db.intents + count_where (pending_in b') db.intents)
      × (count_where (in_open_batch b) db'.intents ≡ 0)
      × (length db'.intents ≡ length db.intents)
unfolding requeue start_auction update_intents
requeue-start_auction b b' db h =
    let started =
      update_where (pending_in b) (λ (row : Intent). record row { status = IntentStatus.auction })
        db.intents in
    (
      omega (
        arith,
        pending-requeue b b' started h,
        auctions-start b db.intents,
        pending-start b b' db.intents h,
      ),
      none_left b b' db.intents h,
      length-update_where _ _ started ∙ length-update_where _ _ db.intents,
    )
