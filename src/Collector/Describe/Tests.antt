-- ===== src/Collector/Describe/Tests.antt =====
-- What is registered and sent under a concrete configuration.
use braiins_pool_exporter.Base.{◌++◌, map, ◌∷◌, []}
use braiins_pool_exporter.Base.Different.{Different}
use braiins_pool_exporter.Base.Int.{pos}
use braiins_pool_exporter.Base.Result.{ok, err}
use braiins_pool_exporter.Base.Time.{Time}
use braiins_pool_exporter.Braiins.Errors.{decode}
use braiins_pool_exporter.Braiins.Tests.{whole_numbers}
use braiins_pool_exporter.Config.Tests.{loaded}
use braiins_pool_exporter.Collector.Cache.{Cache}
use braiins_pool_exporter.Collector.Pool.{PoolSnapshot}
use braiins_pool_exporter.Collector.Account.{AccountSnapshot}
use braiins_pool_exporter.Collector.Workers.{WorkerSnapshot}
use braiins_pool_exporter.Collector.Tests.{as_it_is, btc, good, fleet}
use braiins_pool_exporter.Collector.History.Poll.{empty_history}
use braiins_pool_exporter.Collector.Collect.{Key}
use braiins_pool_exporter.Collector.Collect.All.{pool_after, account_after, workers_after}
use braiins_pool_exporter.Collector.Describe.{metric_name, self_names, registered}
use braiins_pool_exporter.Collector.Describe.Laws.{AreFit}
use braiins_pool_exporter.Collector.Describe.Fit.Gather.{
  scrape, scrape-AreFit, registered-Different,
}

registered-Different_example : Different (self_names ++ map metric_name (registered loaded))
registered-Different_example = registered-Different loaded

abbrev no_clock : Key → Time
no_clock key = pos 0

abbrev pool : Cache (PoolSnapshot whole_numbers as_it_is)
pool = pool_after whole_numbers as_it_is btc ((pos 1, err decode) ∷ [])

abbrev account : Cache (AccountSnapshot whole_numbers as_it_is)
account = account_after whole_numbers as_it_is btc ((pos 7, good) ∷ [])

abbrev workers : Cache (WorkerSnapshot whole_numbers as_it_is)
workers = workers_after whole_numbers as_it_is btc (pos 2) ((pos 7, ok fleet) ∷ [])

scrape-AreFit_example :
    AreFit whole_numbers as_it_is
      (registered loaded)
      (scrape whole_numbers as_it_is no_clock loaded pool account workers empty_history)
scrape-AreFit_example =
    scrape-AreFit whole_numbers as_it_is no_clock loaded pool account workers empty_history
