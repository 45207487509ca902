-- ===== src/System/Memory/Laws.antt =====
-- What the totals over a run of samples add up to.
use atop.Prelude.{◌≡◌, List, [], ◌∷◌}
use atop.Prelude.Int.{◌+ℤ◌}
use atop.Deviate.Calc.Laws.{Grew}
use atop.System.Totals.{totals, last, add_comm, telescope}
use atop.System.Memory.{Memstat, mem_diff, total_mem}

-- Every event that `totalsyst` counts has a reading, which has not gone back.
pub record HasGrown (pre cur : Memstat) : Type 0 where
  pub pgouts : Grew pre.pgouts cur.pgouts
  pub pgins : Grew pre.pgins cur.pgins
  pub swouts : Grew pre.swouts cur.swouts
  pub swins : Grew pre.swins cur.swins
  pub zswouts : Grew pre.zswouts cur.zswouts
  pub zswins : Grew pre.zswins cur.zswins
  pub pgscans : Grew pre.pgscans cur.pgscans
  pub allocstall : Grew pre.allocstall cur.allocstall
  pub compactstall : Grew pre.compactstall cur.compactstall

-- The same from each sample to the next one.
abbrev pub AllGrown : Memstat → List Memstat → Type 0
AllGrown pre [] = Unit
AllGrown pre (cur ∷ curs) = HasGrown pre cur × AllGrown cur curs

-- The totals have grown by as much as the readings.
pub record AddUp (pre tot end tot' : Memstat) : Type 0 where
  pub pgouts : pre.pgouts +ℤ tot'.pgouts ≡ tot.pgouts +ℤ end.pgouts
  pub pgins : pre.pgins +ℤ tot'.pgins ≡ tot.pgins +ℤ end.pgins
  pub swouts : pre.swouts +ℤ tot'.swouts ≡ tot.swouts +ℤ end.swouts
  pub swins : pre.swins +ℤ tot'.swins ≡ tot.swins +ℤ end.swins
  pub zswouts : pre.zswouts +ℤ tot'.zswouts ≡ tot.zswouts +ℤ end.zswouts
  pub zswins : pre.zswins +ℤ tot'.zswins ≡ tot.zswins +ℤ end.zswins
  pub pgscans : pre.pgscans +ℤ tot'.pgscans ≡ tot.pgscans +ℤ end.pgscans
  pub allocstall : pre.allocstall +ℤ tot'.allocstall ≡ tot.allocstall +ℤ end.allocstall
  pub compactstall : pre.compactstall +ℤ tot'.compactstall ≡ tot.compactstall +ℤ end.compactstall

-- Over a run of samples in which no counted event goes back, the totals that `totalsyst` makes of
-- the deviations grow by exactly the difference of the last and the first reading, in every
-- counter that it accumulates.
pub totals-AddUp :
    (pre tot : Memstat) (curs : List Memstat)
    → AllGrown pre curs
    → AddUp pre tot (last pre curs) (totals mem_diff total_mem pre curs tot)
unfolding totals last mem_diff total_mem
totals-AddUp pre tot [] h = record {
  pgouts = add_comm pre.pgouts tot.pgouts;
  pgins = add_comm pre.pgins tot.pgins;
  swouts = add_comm pre.swouts tot.swouts;
  swins = add_comm pre.swins tot.swins;
  zswouts = add_comm pre.zswouts tot.zswouts;
  zswins = add_comm pre.zswins tot.zswins;
  pgscans = add_comm pre.pgscans tot.pgscans;
  allocstall = add_comm pre.allocstall tot.allocstall;
  compactstall = add_comm pre.compactstall tot.compactstall;
}
totals-AddUp pre tot (cur ∷ curs) h =
    let step = total_mem (mem_diff cur pre) tot in
    let end = last cur curs in
    let done = totals mem_diff total_mem cur curs step in
    let ih = totals-AddUp cur step curs h.1 in
    record {
      pgouts =
          telescope pre.pgouts cur.pgouts tot.pgouts end.pgouts done.pgouts h.0.pgouts ih.pgouts;
      pgins = telescope pre.pgins cur.pgins tot.pgins end.pgins done.pgins h.0.pgins ih.pgins;
      swouts =
          telescope pre.swouts cur.swouts tot.swouts end.swouts done.swouts h.0.swouts ih.swouts;
      swins = telescope pre.swins cur.swins tot.swins end.swins done.swins h.0.swins ih.swins;
      zswouts =
          telescope pre.zswouts cur.zswouts tot.zswouts end.zswouts done.zswouts h.0.zswouts
            ih.zswouts;
      zswins =
          telescope pre.zswins cur.zswins tot.zswins end.zswins done.zswins h.0.zswins ih.zswins;
      pgscans =
          telescope pre.pgscans cur.pgscans tot.pgscans end.pgscans done.pgscans h.0.pgscans
            ih.pgscans;
      allocstall =
          telescope pre.allocstall cur.allocstall tot.allocstall end.allocstall done.allocstall
            h.0.allocstall ih.allocstall;
      compactstall =
          telescope pre.compactstall cur.compactstall tot.compactstall end.compactstall
            done.compactstall h.0.compactstall ih.compactstall;
    }
