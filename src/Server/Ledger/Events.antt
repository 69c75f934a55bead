-- ===== src/Server/Ledger/Events.antt =====
-- The ledger over any sequence of blocks that arrive and synchronisations, with any refusals of the
-- database.
use thermotrace_production.Common.{String, Bool, false, List, [], ◌∷◌}
use thermotrace_production.Server.Ledger.{Service}
use thermotrace_production.Server.Ledger.Envelopes.{BlockData, Encoding}
use thermotrace_production.Server.Ledger.Logic.{Ends, Leads-keeps}
use thermotrace_production.Server.Ledger.Sync.{Client, process_block_event, sync_blocks}
use thermotrace_production.Server.Ledger.Frame.{process_block_event-Leads, sync_blocks-Leads}
use thermotrace_production.Server.Ledger.Counters.{Tally, Tally-least, save_block-Tally}
use thermotrace_production.Server.Ledger.Counters.Transactions.{save_transaction-Tally}
use thermotrace_production.Server.Ledger.Repeats.{
  Unrepeated, save_block-Unrepeated, save_transaction-Unrepeated,
}

-- What the database answers before the next event, and the event.
pub data LedgerEvent : Type 0 where
  arrival : Bool → BlockData → LedgerEvent
  synchronisation : String → Bool → LedgerEvent

module _ (encoding : Encoding) (client : Client) where
  abbrev pub handle : LedgerEvent → Service → Service
  handle (arrival no_discovery block) s =
      (process_block_event encoding client no_discovery block s).0
  handle (synchronisation channel_name no_discovery) s =
      (sync_blocks encoding client channel_name no_discovery s).0

  abbrev pub serve : List LedgerEvent → Service → Service
  serve [] s = s
  serve (e ∷ es) s = serve es (handle e s)

  -- A block that arrives keeps the counters of the channels: where they are the numbers of the rows
  -- of blocks and transactions, they still are if the processing returns; and where no counter is
  -- above the number of rows, none is afterwards, whatever the database refuses.
  pub process_block_event-Tally :
      (exact no_discovery : Bool) (block : BlockData) (s : Service)
      → Tally exact s.tables
      → Ends
          (λ _ s'. Tally exact s'.tables)
          (λ s'. Tally false s'.tables)
          (process_block_event encoding client no_discovery block s)
  process_block_event-Tally exact no_discovery block s h =
      (process_block_event-Leads encoding client (Tally exact) (Tally false) (Tally-least exact)
          (save_block-Tally exact) (save_transaction-Tally exact) no_discovery block).run
        s h

  handle-keeps :
      (e : LedgerEvent) (s : Service)
      → Tally false s.tables
      → Unrepeated s.tables
      → Tally false (handle e s).tables × Unrepeated (handle e s).tables
  handle-keeps (arrival no_discovery block) s h k = (
    Leads-keeps
        (process_block_event-Leads encoding client (Tally false) (Tally false) (λ t p. p)
          (save_block-Tally false) (save_transaction-Tally false) no_discovery block)
        s h,
    Leads-keeps
        (process_block_event-Leads encoding client Unrepeated Unrepeated (λ t p. p)
          save_block-Unrepeated save_transaction-Unrepeated no_discovery block)
        s k,
  )
  handle-keeps (synchronisation channel_name no_discovery) s h k = (
    Leads-keeps
        (sync_blocks-Leads encoding client (Tally false) (save_block-Tally false)
          (save_transaction-Tally false) channel_name no_discovery)
        s h,
    Leads-keeps
        (sync_blocks-Leads encoding client Unrepeated save_block-Unrepeated
          save_transaction-Unrepeated channel_name no_discovery)
        s k,
  )

  -- After any blocks that arrive and any synchronisations, whatever the database refuses on the
  -- way, no row stands twice for one block or one transaction, and no counter of a channel is above
  -- the number of its rows, if this was so before.
  pub serve-IsLedger :
      (events : List LedgerEvent) (s : Service)
      → Tally false s.tables
      → Unrepeated s.tables
      → Tally false (serve events s).tables × Unrepeated (serve events s).tables
  serve-IsLedger [] s h k = (h, k)
  serve-IsLedger (e ∷ es) s h k =
      let (h', k') = handle-keeps e s h k in serve-IsLedger es (handle e s) h' k'
