-- ===== src/Tests/Branches.antt =====
-- A session that wrote an account and a slot, and its branch.
use forkyard.Base.{refl}
use forkyard.Base.Maps.{get, insert}
use forkyard.Engine.Session.{Session, fork, set_account, set_storage, branch}
use forkyard.Engine.Database.{basic, code_by_hash, storage, block_hash}
use forkyard.Engine.Branching.{SameReply, IsOverlaid, branch_reads}
use forkyard.Fetch.Speculation.{Thread}
use forkyard.Tests.{Bytes, NoError, World, holder, fresh_session, cold}

abbrev written : Session Bytes NoError (Thread World)
unfolding fork set_account set_storage insert
written = set_storage 1 3 8 (set_account 1 (holder 9) fresh_session)

written-IsOverlaid : IsOverlaid written
unfolding fork get insert set_account set_storage
written-IsOverlaid = record { accounts = (refl, tt); code = tt; storage = (refl, tt) }

branch_reads_example :
    SameReply (basic 1 (branch written) cold) (basic 1 written cold)
    × (SameReply (code_by_hash 0 (branch written) cold) (code_by_hash 0 written cold)
        × (SameReply (storage 1 3 (branch written) cold) (storage 1 3 written cold)
            × SameReply (block_hash 0 (branch written) cold) (block_hash 0 written cold)))
branch_reads_example = branch_reads written cold 1 0 3 0 written-IsOverlaid
